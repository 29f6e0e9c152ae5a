-- ===== src/ExtAuthz/Decide.antt =====
-- pkg/extauthz/server.go: the server and `decide`, with the gates afterwards and the events that it
-- emits as results. A nil pointer that is followed is the result `none`.
pub mod Admissions
pub mod Total
use nullfield.Prelude.{
  ℕ, String, Bool, true, false, not, ◌&&◌, ◌||◌, List, [], ◌∷◌, ◌++◌, Option, none, some, ◌==◌,
  if◌then◌else◌, ◌+++◌, is_prefix, any, is_some, pos, negsuc, split_on, strip_prefix, without_last,
  or_else,
}
use nullfield.Identity.{Identity, Run}
use nullfield.Identity.Attest.{Attestation, attester_none}
use nullfield.Identity.RunToken.{
  Jwks, Verified, verified, failed, missing, unbound, invalid, verify_run_token, run_token_header,
}
use nullfield.Operations.{Library, OperationMap, resolve}
use nullfield.Policy.Engine.{Request, Decision}
use nullfield.Policy.Cel.{Cel}
use nullfield.Policy.Rules.{RuleEngine, evaluate}
use nullfield.Circuit.{Breaker, first_trip}
use nullfield.Gates.{Gates, Call, Refusal, Clock, gate_circuit, admit, charge}
use nullfield.Audit.{AuditEvent, event_of}
use nullfield.ExtAuthz.{
  mode_observe, is_valid, CheckResponse, HttpResponse, ok_response, denied_response,
  counterfactual_for, respond,
}
use nullfield.ExtAuthz.Translate.{Codec, CheckRequest, Translated, translate}
use nullfield.ExtAuthz.Target.{verify_target}
use nullfield.ExtAuthz.Verify.{then_verify, verify_operation, verify_run, principal_of}

abbrev pub assurance_medium : String
assurance_medium = "MEDIUM"

abbrev pub assurance_attested : String
assurance_attested = "ATTESTED"

abbrev pub assurance_none : String
assurance_none = "NONE"

-- `Config` and `Server`; without an emitter of events `has_audit` is false.
pub record Server (Ast Program : Type 0) : Type 0 where
  pub mode : String
  pub cel : Cel Ast Program
  pub engine : RuleEngine Program
  pub has_audit : Bool
  pub run_tokens : Option Jwks
  pub run_token_optional : Bool
  pub operations : Option OperationMap
  pub lookup_addr : Option (String → List String)
  pub library : Library

-- `NewServer`: a mode that is not known becomes the observing one.
abbrev pub known_mode : String → String
known_mode mode = if is_valid mode then mode else mode_observe

abbrev pub new_server : {Ast Program : Type 0} → Server Ast Program → Server Ast Program
new_server cfg = record cfg { mode = known_mode cfg.mode }

-- `refuse`
unfoldable pub refuse : Decision → Refusal → Decision
refuse d r = record d {
  allowed = false;
  held = false;
  scoped = false;
  gate = r.gate;
  reason_class = r.reason_class;
  reason = r.reason;
}

-- `policy.Decision{RuleIndex: -1}`
abbrev pub no_decision : Decision
no_decision = record {
  allowed = false;
  held = false;
  scoped = false;
  reason = "";
  gate = "";
  reason_class = "";
  rule_index = negsuc 0;
  rule_id = "";
  labels = none;
  matched_rule = none;
  counterfactual = "";
}

-- What `decide` leaves behind.
pub record Decided : Type 0 where
  pub gates : Gates
  pub translated : Translated
  pub events : List AuditEvent
  pub decision : Decision

abbrev pub identity_subject : Option Identity → Option String
identity_subject none = none
identity_subject (some id) = some id.subject

-- The event of a session's trip; it follows the pointers to the identity and the attestation.
unfoldable pub trip_event : Translated → Call → Refusal → Option AuditEvent
trip_event t call r = elim t.policy.identity [
  | none ↦ none
  | some id ↦ elim t.attestation [
    | none ↦ none
    | some att ↦ some (record (event_of "circuit.tripped") {
      target = t.policy.target;
      tool_name = t.policy.tool_name;
      gate = r.gate;
      reason_class = r.reason_class;
      reason = r.reason;
      run_id = call.session;
      session_id = call.session;
      identity = id.subject;
      workload_principal = t.raw_principal;
      attester = att.attester;
      assurance = assurance_medium;
    })
  ]
]

abbrev pub warning_event : Translated → Refusal → AuditEvent
warning_event t warning = record (event_of "anomaly.velocity") {
  tool_name = t.policy.tool_name;
  target = t.policy.target;
  gate = warning.gate;
  reason_class = warning.reason_class;
  reason = warning.reason;
  workload_principal = t.raw_principal;
}

-- `emit`
abbrev pub emit : Bool → AuditEvent → List AuditEvent
emit has_audit e = if has_audit then e ∷ [] else []

-- A call that `Admit` refuses because its session has tripped, given what `FirstTrip` said
unfoldable pub tripped :
    Bool → Gates → Translated → Call → Refusal → Breaker × Bool → Option Decided
unfolding trip_event refuse
tripped has_audit g t call r (b, false) = some (record {
  gates = record g { breaker = some b };
  translated = t;
  events = [];
  decision = refuse no_decision r;
})
tripped has_audit g t call r (b, true) = elim (trip_event t call r) [
  | none ↦ none
  | some e ↦ some (record {
    gates = record g { breaker = some b };
    translated = t;
    events = emit has_audit e;
    decision = refuse no_decision r;
  })
]

unfoldable pub trip : Option Breaker → Bool → Gates → Translated → Call → Refusal → Option Decided
unfolding tripped
trip none has_audit g t call r = none
trip (some b) has_audit g t call r = tripped has_audit g t call r (first_trip b call.session)

-- A call that `Admit` refuses
unfoldable pub not_admitted : Bool → Gates → Translated → Call → Refusal → Option Decided
unfolding trip refuse
not_admitted has_audit g t call r =
    if r.gate == gate_circuit
    then trip g.breaker has_audit g t call r
    else some (record { gates = g; translated = t; events = []; decision = refuse no_decision r })

-- A call that policy allows, given what `Charge` answered
unfoldable pub charged :
    Bool → Translated → Decision → Gates × (Option Refusal × Option Refusal) → Decided
unfolding refuse
charged has_audit t d (g, (some r, warning)) = record {
  gates = g;
  translated = t;
  events = [];
  decision = refuse d r;
}
charged has_audit t d (g, (none, none)) = record {
  gates = g;
  translated = t;
  events = [];
  decision = d;
}
charged has_audit t d (g, (none, some w)) = record {
  gates = g;
  translated = t;
  events = emit has_audit (warning_event t w);
  decision = d;
}

-- An admitted call, given the decision of the policy
unfoldable pub judged : Bool → Gates → Translated → Call → Clock → Option Decision → Option Decided
unfolding charged
judged has_audit g t call clock none = none
judged has_audit g t call clock (some d) =
    if not d.allowed
    then some (record { gates = g; translated = t; events = []; decision = d })
    else some (charged has_audit t d (charge g call d clock))

module _ {Ast Program : Type 0} (s : Server Ast Program) where
  -- The refusals of `decide` before `Admit`, in their order
  unfoldable pub verify : Translated → Translated × Option Refusal
  unfolding verify_target verify_operation verify_run
  verify t =
      then_verify
        (then_verify (verify_target s.lookup_addr s.library t)
          (verify_operation s.operations s.library))
        (verify_run s.run_tokens s.run_token_optional s.library)

  abbrev pub session_of : Option Jwks → Option Run → String
  session_of none run = ""
  session_of (some jwks) none = ""
  session_of (some jwks) (some run) = run.id

  -- The call that is admitted and charged
  abbrev pub call_of : Translated → Call
  call_of t = record {
    tool = t.policy.tool_name;
    subject = principal_of t.attestation;
    session = session_of s.run_tokens t.policy.run;
  }

  unfoldable pub admitted : Gates → Translated → ℕ → Clock → Option Refusal → Option Decided
  unfolding not_admitted judged
  admitted g t now clock (some r) = not_admitted s.has_audit g t (call_of t) r
  admitted g t now clock none =
      judged s.has_audit g t (call_of t) clock (evaluate s.cel s.engine t.policy)

  unfoldable pub decide_verified : Gates → ℕ → Clock → Translated × Option Refusal → Option Decided
  unfolding admitted refuse
  decide_verified g now clock (t, some r) =
      some (record { gates = g; translated = t; events = []; decision = refuse no_decision r })
  decide_verified g now clock (t, none) = admitted g t now clock (admit g (call_of t) now)

  -- `decide`
  unfoldable pub decide : Gates → Translated → ℕ → Clock → Option Decided
  unfolding decide_verified verify
  decide g t now clock = decide_verified g now clock (verify t)
