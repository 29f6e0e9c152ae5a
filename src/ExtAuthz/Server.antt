-- ===== src/ExtAuthz/Server.antt =====
-- pkg/extauthz/server.go: one check of Envoy's, from the request to the answer, with the gates afterwards
-- and the events that are emitted as results. The diagnostic log of `describePeer` is left out. A nil
-- pointer that is followed is the result `none`.
pub mod Total
pub mod Answers
pub mod Events
use nullfield.Prelude.{
  ℕ, String, Bool, true, false, not, ◌&&◌, ◌||◌, List, [], ◌∷◌, ◌++◌, Option, none, some, ◌==◌,
  if◌then◌else◌, ◌+++◌, is_prefix, any, is_some, pos, negsuc, split_on, strip_prefix, without_last,
  or_else,
}
use nullfield.Identity.{Identity, Run}
use nullfield.Identity.Attest.{Attestation, attester_none}
use nullfield.Identity.RunToken.{
  Jwks, Verified, verified, failed, missing, unbound, invalid, verify_run_token, run_token_header,
}
use nullfield.Operations.{Library, OperationMap, resolve}
use nullfield.Policy.Engine.{Request, Decision}
use nullfield.Policy.Cel.{Cel}
use nullfield.Policy.Rules.{RuleEngine, evaluate}
use nullfield.Circuit.{Breaker, first_trip}
use nullfield.Gates.{Gates, Call, Refusal, Clock, gate_circuit, admit, charge}
use nullfield.Audit.{AuditEvent, event_of}
use nullfield.ExtAuthz.{
  mode_observe, is_valid, CheckResponse, HttpResponse, ok_response, denied_response,
  counterfactual_for, respond,
}
use nullfield.ExtAuthz.Translate.{Codec, CheckRequest, Translated, translate}
use nullfield.ExtAuthz.Decide.{
  Server, Decided, decide, no_decision, assurance_attested, assurance_medium, assurance_none, emit,
}

abbrev pub attester_of : Option Attestation → String × String
attester_of none = (attester_none, assurance_none)
attester_of (some att) = (att.attester, assurance_attested)

-- The rest of the event of a decision, which names a verified run; it follows the pointer to the
-- identity.
unfoldable pub with_run : Option Run → Option Identity → AuditEvent → Option AuditEvent
with_run none id e = some e
with_run (some run) none e = none
with_run (some run) (some id) e = some (record e {
  run_id = run.id;
  session_id = run.id;
  identity = id.subject;
  assurance = assurance_medium;
})

module _ {Ast Program : Type 0} (s : Server Ast Program) where
  -- `respond`: the run token is not to reach the upstream.
  unfoldable pub without_token : CheckResponse → CheckResponse
  without_token resp = elim resp.http_response [
    | denied_response status body ↦ resp
    | ok_response headers ↦
        if is_some s.run_tokens
        then record resp {
          http_response = ok_response (headers ++ s.library.to_lower run_token_header ∷ []);
        }
        else resp
  ]

  unfoldable pub answer : Decision → CheckResponse
  unfolding respond without_token
  answer d = without_token (respond s.mode d)

  -- The event of a request that cannot be translated
  abbrev pub blind_event : Option Translated → String → AuditEvent
  blind_event none e = record (event_of "arbiter.decision") {
    gate = "translate";
    reason_class = "body_truncated";
    reason = e;
    attester = attester_none;
    assurance = assurance_none;
    counterfactual = counterfactual_for s.mode no_decision;
  }
  blind_event (some t) e = record (event_of "arbiter.decision") {
    gate = "translate";
    reason_class = "body_truncated";
    reason = e;
    attester = (attester_of t.attestation).0;
    assurance = (attester_of t.attestation).1;
    counterfactual = counterfactual_for s.mode no_decision;
    target = t.policy.target;
    workload_principal = t.raw_principal;
  }

  abbrev pub decision_event : Decided → AuditEvent
  decision_event o = record (event_of "arbiter.decision") {
    method = o.translated.policy.method;
    tool_name = o.translated.policy.tool_name;
    target = o.translated.policy.target;
    action = o.translated.policy.action;
    transport = o.translated.policy.transport;
    gate = o.decision.gate;
    reason_class = o.decision.reason_class;
    rule_id = o.decision.rule_id;
    reason = o.decision.reason;
    labels = o.decision.labels;
    counterfactual = counterfactual_for s.mode o.decision;
    workload_principal = o.translated.raw_principal;
    attester = (attester_of o.translated.attestation).0;
    assurance = (attester_of o.translated.attestation).1;
  }

  unfoldable pub report : Decided → Option (Gates × List AuditEvent × CheckResponse)
  unfolding with_run answer
  report o =
      elim (with_run o.translated.policy.run o.translated.policy.identity (decision_event o)) [
        | none ↦ none
        | some e ↦ some (o.gates, o.events ++ emit s.has_audit e, answer o.decision)
      ]

  unfoldable pub reported : Option Decided → Option (Gates × List AuditEvent × CheckResponse)
  unfolding report
  reported none = none
  reported (some o) = report o

  -- `Check`, given what was translated
  unfoldable pub check_translated :
      Gates
      → Option Translated × Option String
      → ℕ
      → Clock
      → Option (Gates × List AuditEvent × CheckResponse)
  unfolding answer decide reported
  check_translated g (out, some e) now clock =
      some (g, emit s.has_audit (blind_event out e), answer (record no_decision { reason = e }))
  check_translated g (none, none) now clock = none
  check_translated g (some t, none) now clock = reported (decide s g t now clock)

  -- `Check`
  unfoldable pub check :
      Codec → Gates → CheckRequest → ℕ → Clock → Option (Gates × List AuditEvent × CheckResponse)
  unfolding check_translated translate
  check codec g req now clock = check_translated g (translate codec req) now clock
