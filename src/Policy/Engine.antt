-- ===== src/Policy/Engine.antt =====
-- pkg/policy/engine.go: the input and the output of an evaluation. `Arguments`, `Claims` and
-- `Context` are `none` for a nil map; a `RuleIndex` of -1 is `negsuc 0`.
use nullfield.Prelude.{String, Bool, List, Option, ℤ}
use nullfield.Value.{Fields}
use nullfield.Identity.{Identity, Run}
use nullfield.Api.{Rule}

-- `Request`
pub record Request : Type 0 where
  pub method : String
  pub tool_name : String
  pub arguments : Option Fields
  pub identity : Option Identity
  pub transport : String
  pub target : String
  pub operation : String
  pub action : String
  pub params : List (String × String)
  pub run : Option Run

-- `Decision`
pub record Decision : Type 0 where
  pub allowed : Bool
  pub held : Bool
  pub scoped : Bool
  pub reason : String
  pub gate : String
  pub reason_class : String
  pub rule_index : ℤ
  pub rule_id : String
  pub labels : Option (List (String × String))
  pub matched_rule : Option Rule
  pub counterfactual : String
