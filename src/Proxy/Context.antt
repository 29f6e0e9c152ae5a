-- ===== src/Proxy/Context.antt =====
-- pkg/proxy/audit_context.go and the two helpers of pkg/proxy/handler.go on what a gate says: the
-- events of a call, and the errors that a client gets.
use nullfield.Prelude.{
  String, Bool, false, ◌||◌, List, [], ◌∷◌, ◌++◌, Option, none, some, ◌==◌, if◌then◌else◌, ◌+++◌,
  any, ℤ, pos, negsuc,
}
use nullfield.Identity.{Identity}
use nullfield.Policy.Engine.{Decision}
use nullfield.Circuit.{Breaker, first_trip}
use nullfield.Gates.{Gates, Refusal, gate_registry, gate_circuit, gate_anomaly}
use nullfield.Mcp.{code_tool_unknown, code_circuit_open, code_policy_denied, code_rate_limited}
use nullfield.Audit.{AuditEvent, event_of}

abbrev pub text_or : String → String → String
text_or s fallback = if s == "" then fallback else s

-- `eventWithIdentity`; the proxy's identity is not nil.
abbrev pub event_with_identity : AuditEvent → Identity → AuditEvent
event_with_identity e id = record e {
  identity = text_or e.identity id.subject;
  session_id = text_or e.session_id id.session_id;
}

-- The labels of a decision under the names that the event does not label itself
unfoldable pub added_labels :
    List (String × String) → List (String × String) → List (String × String)
added_labels labels [] = []
added_labels labels ((k, v) ∷ rest) =
    let added = added_labels labels rest in
    if any (λ l. l.0 == k) labels then added else (k, v) ∷ added

abbrev pub label_list : Option (List (String × String)) → List (String × String)
label_list none = []
label_list (some labels) = labels

unfoldable pub merge_labels :
    Option (List (String × String)) → List (String × String) → Option (List (String × String))
unfolding added_labels
merge_labels labels [] = labels
merge_labels labels (l ∷ extra) =
    some (label_list labels ++ added_labels (label_list labels) (l ∷ extra))

unfoldable pub index_or : Option ℤ → ℤ → Option ℤ
index_or (some i) j = some i
index_or none (pos n) = some (pos n)
index_or none (negsuc n) = none

-- `eventWithDecision`
unfoldable pub event_with_decision : AuditEvent → Decision → Identity → AuditEvent
unfolding merge_labels index_or
event_with_decision e d id =
    let known = event_with_identity e id in
    record known {
      gate = text_or known.gate d.gate;
      reason_class = text_or known.reason_class d.reason_class;
      rule_id = text_or known.rule_id d.rule_id;
      rule_index = index_or known.rule_index d.rule_index;
      labels = merge_labels known.labels (label_list d.labels);
    }

-- `holdReasonClass`
abbrev pub hold_reason_class : String → String
hold_reason_class resolved_by = if resolved_by == "timeout" then "hold_timeout" else "hold_denied"

abbrev pub tripped_by : Option Breaker → String → Option Breaker × Bool
tripped_by none session = (none, false)
tripped_by (some b) session = (some (first_trip b session).0, (first_trip b session).1)

-- `gateEvent`, with the gates whose breaker may have marked the session
unfoldable pub gate_event : Gates → String → Refusal → String → String → Gates × AuditEvent
gate_event g session r method tool =
    let e = record (event_of "tool.denied") {
      method = method;
      tool_name = tool;
      gate = r.gate;
      reason_class = r.reason_class;
      reason = r.reason;
    } in
    let trip = tripped_by g.breaker session in
    if r.gate == gate_circuit
    then (
      record g { breaker = trip.0 },
      record e { type = if trip.1 then "circuit.tripped" else "tool.denied" },
    )
    else if r.gate == gate_anomaly
    then (g, record e { type = "anomaly.velocity" })
    else (g, e)

-- `gateError`
unfoldable pub gate_error : Refusal → String → ℤ × String
gate_error r tool =
    if r.gate == gate_registry
    then (code_tool_unknown, r.reason +++ ": " +++ tool)
    else if r.gate == gate_circuit
    then (code_circuit_open, r.reason)
    else if r.reason_class == "budget_unattributable" || r.reason_class == "rate_unattributable"
    then (code_policy_denied, r.reason)
    else (code_rate_limited, r.reason)
