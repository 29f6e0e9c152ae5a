-- ===== src/Api.antt =====
-- api/v1alpha1/types.go: the policy's rules and the registry's entries. A pointer is an `Option`,
-- a map of labels is the list of its entries.
pub mod Spec
use nullfield.Prelude.{String, Bool, List, Option, ℤ}
use nullfield.Value.{Fields}

-- `Action` is text in the source: `other` is any text but the four constants.
pub data Action : Type 0 where
  allow deny hold scope : Action
  other : String → Action

-- `WhenCondition`
pub record WhenCondition : Type 0 where
  pub identity_type : String
  pub provider : String
  pub claims : Fields

pub record NotifyConfig : Type 0 where
  pub webhook : String
  pub admin_api : Bool

pub record HoldConfig : Type 0 where
  pub timeout : String
  pub on_timeout : String
  pub notify : Option NotifyConfig

pub record CredentialRef : Type 0 where
  pub secret_ref : String
  pub from : String
  pub inject_as : String

pub record ScopeRequestConfig : Type 0 where
  pub strip_arguments : List String
  pub inject_arguments : Fields
  pub inject_credentials : List CredentialRef
  pub block_redirects : Bool

pub record ScopeResponseConfig : Type 0 where
  pub redact_patterns : List String
  pub redact_replacement : String

pub record ScopeConfig : Type 0 where
  pub request : Option ScopeRequestConfig
  pub response : Option ScopeResponseConfig

pub record BudgetLimits : Type 0 where
  pub max_calls_per_hour : ℤ
  pub max_calls_per_day : ℤ
  pub max_tokens_per_day : ℤ

pub record BudgetConfig : Type 0 where
  pub per_identity : Option BudgetLimits
  pub per_session : Option BudgetLimits
  pub on_exhausted : String

pub record InspectionConfig : Type 0 where
  pub enabled : Bool
  pub detect_credentials : Bool
  pub detect_pii : Bool
  pub detect_prompt_leak : Bool
  pub detect_paths : Bool
  pub on_finding : String

pub record RuleIdentityGuard : Type 0 where
  pub require_act_chain : Bool
  pub audience_must_narrow : Bool

pub record RuleDelegationGuard : Type 0 where
  pub max_depth : ℤ

pub record ParamRule : Type 0 where
  pub name : String
  pub required : Bool
  pub max_length : ℤ
  pub pattern : String

pub record Rule : Type 0 where
  pub id : String
  pub action : Action
  pub mcp_method : String
  pub tool_names : List String
  pub direction : String
  pub destination : String
  pub require_identity : Bool
  pub max_calls_per_min : ℤ
  pub cel_expression : String
  pub inject_cred : Option CredentialRef
  pub param_rules : List ParamRule
  pub when : Option WhenCondition
  pub hold : Option HoldConfig
  pub scope : Option ScopeConfig
  pub budget : Option BudgetConfig
  pub identity : Option RuleIdentityGuard
  pub delegation : Option RuleDelegationGuard
  pub inspection : Option InspectionConfig
  pub audit_labels : List (String × String)
  pub reason : String

pub record ToolRegistryEntry : Type 0 where
  pub name : String
  pub description : String
  pub allowed_scopes : List String
  pub signature_hash : String
  pub max_calls_per_min : ℤ
