-- ===== src/Identity.antt =====
-- The caller, as pkg/identity/identity.go and pkg/identity/runtoken.go describe it to the policy.
pub mod Drift
pub mod Attest
pub mod RunToken
pub mod Integrity
pub mod Verifiers
use nullfield.Prelude.{String, List, Option, ℤ}
use nullfield.Value.{Fields}

-- `Identity`; `claims` is `none` for a nil map, and `kind` is the source's `Type`.
pub record Identity : Type 0 where
  pub subject : String
  pub issuer : String
  pub session_id : String
  pub scopes : List String
  pub raw : String
  pub kind : String
  pub provider : String
  pub groups : List String
  pub claims : Option Fields
  pub expires_at : ℤ
  pub jti : String

-- `Run`
pub record Run : Type 0 where
  pub id : String
  pub workload : String
  pub context : Option Fields
