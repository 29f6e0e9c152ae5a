-- ===== src/Identity/RunToken.antt =====
-- pkg/identity/runtoken.go: a run's token, bound to the workload that presents it. The verifier of
-- pkg/identity/jwks.go, which checks the signature, is a parameter, as is the verb %q.
pub mod Binding
use nullfield.Prelude.{
  String, Bool, true, false, ◌||◌, not, ◌&&◌, List, [], ◌∷◌, Option, none, some, ◌==◌,
  if◌then◌else◌, ◌+++◌, Result, ok, err, is_some,
}
use nullfield.Value.{Value, null, bool, number, text, texts, list, object, Fields, lookup}
use nullfield.Identity.{Identity, Run}

abbrev pub run_token_header : String
run_token_header = "Txn-Token"

-- `v.jwks.Verify` of a token, with the text of its error; and %q
pub record Jwks : Type 0 where
  pub verify_token : String → Result Identity
  pub quote : String → String

-- The three kinds of error that a caller tells apart, with their text.
pub data RunTokenError : Type 0 where
  missing : RunTokenError
  unbound : String → RunTokenError
  invalid : String → RunTokenError

abbrev pub text_of : Option Value → String
text_of (some (text s)) = s
text_of _ = ""

-- `claimString` of pkg/identity/jwks.go
abbrev pub claim_string : Fields → String → String
claim_string claims key = text_of (lookup key claims)

abbrev pub object_of : Option Value → Option Fields
object_of (some (object fs)) = some fs
object_of _ = none

abbrev pub claims_of : Option Fields → Fields
claims_of none = Fields.end
claims_of (some claims) = claims

-- The first of the claims that is absent.
unfoldable pub missing_claim : List String → Fields → Option String
missing_claim [] claims = none
missing_claim (c ∷ wanted) claims =
    let rest = missing_claim wanted claims in if is_some (lookup c claims) then rest else some c

pub data Verified : Type 0 where
  verified : Identity → Run → Verified
  failed : RunTokenError → Verified

abbrev pub run_of : Fields → Run
run_of claims = record {
  id = claim_string claims "txn";
  workload = claim_string claims "req_wl";
  context = object_of (lookup "tctx" claims);
}

module _ (j : Jwks) where
  -- `Verify` from the test of the run on
  unfoldable pub bind_run : Identity → Run → String → Verified
  bind_run id run workload =
      if run.id == "" || run.workload == ""
      then failed (invalid "run token: txn and req_wl must be non-empty strings")
      else if workload == "" || not (run.workload == workload)
      then failed (
          unbound (
            "run token not issued to this workload: issued to "
            +++ j.quote run.workload
            +++ ", presented by "
            +++ j.quote workload))
      else verified (record id { session_id = run.id }) run

  -- `Verify`, given which claim is absent
  unfoldable pub bind_claims : Option String → Identity → String → Verified
  unfolding bind_run
  bind_claims (some c) id workload = failed (invalid ("run token: missing " +++ c +++ " claim"))
  bind_claims none id workload = bind_run id (run_of (claims_of id.claims)) workload

  -- `Verify`, given what the verifier answered
  unfoldable pub bind_identity : Result Identity → String → Verified
  unfolding missing_claim bind_claims
  bind_identity (err e) workload = failed (invalid ("run token: " +++ e))
  bind_identity (ok id) workload =
      bind_claims (missing_claim ("iat" ∷ "txn" ∷ "req_wl" ∷ []) (claims_of id.claims)) id workload

  -- `Verify`
  unfoldable pub verify_run_token : String → String → Verified
  unfolding bind_identity
  verify_run_token token workload =
      if token == "" then failed missing else bind_identity (j.verify_token token) workload
