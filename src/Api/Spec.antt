-- ===== src/Api/Spec.antt =====
-- api/v1alpha1/types.go: the policy document around the rules. A duration is an integer of nanoseconds.
use nullfield.Prelude.{String, Bool, List, Option, ℤ}
use nullfield.Api.{Rule}

pub record AnomalySequence : Type 0 where
  pub name : String
  pub tools : List String
  pub alert_action : String

pub record AnomalyVelocity : Type 0 where
  pub threshold : ℤ
  pub alert_action : String

-- `AnomalyConfig`
pub record AnomalyConfig : Type 0 where
  pub enabled : Bool
  pub velocity : Option AnomalyVelocity
  pub sequences : List AnomalySequence

-- `RunTokenConfig`
pub record RunTokenConfig : Type 0 where
  pub jwks_uri : String
  pub audience : String
  pub issuer : String
  pub max_lifetime : String
  pub clock_skew : String
  pub is_optional : Bool

-- `IdentityProvider`
pub record IdentityProvider : Type 0 where
  pub name : String
  pub issuer : String
  pub jwks_uri : String
  pub audiences : List String
  pub clock_skew : String

-- `ValidationConfig`
pub record ValidationConfig : Type 0 where
  pub require_signature : Bool
  pub allowed_algorithms : List String
  pub require_expiry : Bool
  pub max_lifetime : String
  pub require_audience : Bool

-- `IdentityConfig`
pub record IdentityConfig : Type 0 where
  pub enabled : Bool
  pub providers : List IdentityProvider
  pub validation : Option ValidationConfig

-- `IntegrityConfig` of a policy
pub record TokenIntegrity : Type 0 where
  pub enabled : Bool
  pub bind_to_session : Bool
  pub detect_replay : Bool
  pub chain_validation : Bool

-- `CircuitBreaker`
pub record CircuitBreaker : Type 0 where
  pub max_tool_calls_per_session : ℤ
  pub max_session_duration : ℤ
  pub on_trip : String

-- `AuditConfig`
pub record AuditConfig : Type 0 where
  pub emit_to : String
  pub log_level : String

-- `NullfieldPolicySpec`; the labels of its selector are a list.
pub record NullfieldPolicySpec : Type 0 where
  pub match_labels : List (String × String)
  pub identity : Option IdentityConfig
  pub run_token : Option RunTokenConfig
  pub integrity : Option TokenIntegrity
  pub anomaly : Option AnomalyConfig
  pub rules : List Rule
  pub circuit_breaker : CircuitBreaker
  pub audit : AuditConfig
