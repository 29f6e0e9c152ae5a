-- ===== src/Audit.antt =====
-- pkg/audit/audit.go: the event that a decision leaves behind. Writing it out is not modelled; the
-- time that an emitter adds is left out.
use nullfield.Prelude.{String, List, Option, none, ℤ}
use nullfield.Value.{Fields}

-- `Event`; a nil `RuleIndex`, `Labels` or `Args` is `none`.
pub record AuditEvent : Type 0 where
  pub type : String
  pub method : String
  pub tool_name : String
  pub identity : String
  pub session_id : String
  pub target : String
  pub gate : String
  pub reason_class : String
  pub rule_index : Option ℤ
  pub rule_id : String
  pub policy_ref : String
  pub registry_ref : String
  pub route : String
  pub labels : Option (List (String × String))
  pub reason : String
  pub error : String
  pub args : Option Fields
  pub workload_principal : String
  pub attester : String
  pub assurance : String
  pub transport : String
  pub counterfactual : String
  pub run_id : String
  pub action : String

-- `audit.Event{Type: t}`
abbrev pub event_of : String → AuditEvent
event_of t = record {
  type = t;
  method = "";
  tool_name = "";
  identity = "";
  session_id = "";
  target = "";
  gate = "";
  reason_class = "";
  rule_index = none;
  rule_id = "";
  policy_ref = "";
  registry_ref = "";
  route = "";
  labels = none;
  reason = "";
  error = "";
  args = none;
  workload_principal = "";
  attester = "";
  assurance = "";
  transport = "";
  counterfactual = "";
  run_id = "";
  action = "";
}
