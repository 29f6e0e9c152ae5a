-- ===== src/Proxy/Calls.antt =====
-- pkg/proxy/handler.go: `handleToolsCall`, a stage for each of its parts. The identifier of a new hold
-- and what the clock says are arguments. `setRequestBody` makes the length that is announced that of
-- the body.
pub mod Passed
pub mod Trail
use nullfield.Prelude.{
  ℕ, suc, ◌*◌, String, Bool, true, false, not, ◌&&◌, ◌||◌, List, [], ◌∷◌, ◌++◌, Option, none, some,
  ◌==◌, if◌then◌else◌, ◌+++◌, join, is_empty, ℤ, pos, negsuc, Result, ok, err,
}
use nullfield.Times.{minute}
use nullfield.Value.{Value, text, Fields}
use nullfield.Api.{
  Rule, CredentialRef, HoldConfig, ScopeConfig, ScopeRequestConfig, ScopeResponseConfig,
}
use nullfield.Identity.{Identity}
use nullfield.Policy.Engine.{Request, Decision}
use nullfield.Policy.Rules.{evaluate}
use nullfield.Gates.{Gates, Refusal, Clock, admit, charge}
use nullfield.Hold
use nullfield.Hold.{Manager, Resolution}
use nullfield.Scope.{Modifications, unmodified, put, modify_request, rebuild_request_body}
use nullfield.Mcp.{
  JsonRpcRequest, ToolsCallParams, new_error_response, parse_tools_call, code_invalid_par,
  code_policy_denied, code_hold_timeout, code_scope_violation,
}
use nullfield.Audit.{AuditEvent, event_of}
use nullfield.Proxy.Context.{
  event_with_identity, event_with_decision, hold_reason_class, gate_event, gate_error, text_or,
}
use nullfield.Proxy.Outcome.{
  Handler, State, Journey, Outcome, replied, forwarded, waiting, posted, panicked, Left, call_of,
}

-- `%v` of a slice of texts
abbrev pub show_texts : List String → String
show_texts ss = "[" +++ join " " ss +++ "]"

-- An event of the call that is on its way
unfoldable pub event_on : String → Journey → AuditEvent
event_on type j = record (event_of type) { method = j.request.method; tool_name = j.tool.name }

abbrev pub reply : Journey → ℤ → String → Outcome
reply j code message = replied (new_error_response j.request.id code message)

-- What the injection of credentials gives: the arguments and the names, no credential, or a write to
-- the nil map
pub data Injected : Type 0 where
  injected : Option Fields → List String → Injected
  unfetched : Injected
  nil_map : Injected

unfoldable pub inject_credentials :
    (String → String → Result String) → List CredentialRef → Option Fields → List String → Injected
unfolding put
inject_credentials fetch [] args names = injected args names
inject_credentials fetch (c ∷ cs) (some args) names =
    let key = text_or c.inject_as c.secret_ref in
    elim (fetch c.from c.secret_ref) [
      | err e ↦ unfetched
      | ok val ↦ inject_credentials fetch cs (some (put key (text val) args)) (names ++ key ∷ [])
    ]
inject_credentials fetch (c ∷ cs) none names = elim (fetch c.from c.secret_ref) [
  | err e ↦ unfetched
  | ok val ↦ nil_map
]

abbrev pub inject_with :
    Option (String → String → Result String)
    → List CredentialRef
    → Option Fields × Modifications
    → Injected
inject_with none cs (args, mods) = injected args mods.injected_args
inject_with (some fetch) cs (args, mods) = inject_credentials fetch cs args mods.injected_args

-- What SCOPE makes of a call
pub data Scoped : Type 0 where
  scoped : Journey → Modifications → Scoped
  violated : String → Scoped
  crashed : Scoped

abbrev pub scope_of : Option Rule → Option ScopeConfig
scope_of none = none
scope_of (some rule) = rule.scope

abbrev pub hold_of : Option Rule → Option HoldConfig
hold_of none = none
hold_of (some rule) = rule.hold

abbrev pub response_of : Option ScopeConfig → Option ScopeResponseConfig
response_of none = none
response_of (some cfg) = cfg.response

abbrev pub redacts : Option ScopeResponseConfig → Bool
redacts none = false
redacts (some cfg) = not (is_empty cfg.redact_patterns)

module _ {Ast Program Re : Type 0} (h : Handler Ast Program Re) where
  -- `needsInspection`
  unfoldable pub needs_inspection : Decision → Bool
  needs_inspection d = elim h.inspector [
    | none ↦ false
    | some inspector ↦ elim d.matched_rule [
      | none ↦ false
      | some rule ↦ elim rule.inspection [ none ↦ false | some icfg ↦ icfg.enabled ]
    ]
  ]

  -- The end of `handleToolsCall`, where the call goes to the upstream
  unfoldable pub deliver : Option ScopeResponseConfig → Journey → Outcome
  unfolding needs_inspection
  deliver cfg j =
      if redacts cfg || needs_inspection j.decision then posted cfg j else forwarded j.body

  unfoldable pub warn : State → Journey → Option Refusal → State × List AuditEvent
  unfolding gate_event event_with_decision
  warn s j none = (s, [])
  warn s j (some w) =
      let (g, e) = gate_event s.gates j.caller.session_id w j.request.method j.tool.name in
      (record s { gates = g }, event_with_decision e j.decision j.caller ∷ [])

  unfoldable pub charged :
      State
      → Option ScopeResponseConfig
      → Journey
      → Gates × (Option Refusal × Option Refusal)
      → Left
  unfolding gate_event gate_error event_with_decision warn event_on deliver
  charged s cfg j (g, (some r, warning)) =
      let (g', e) = gate_event g j.caller.session_id r j.request.method j.tool.name in
      let (code, message) = gate_error r j.tool.name in
      (
        record s { gates = g' },
        event_with_decision e j.decision j.caller ∷ [],
        reply j code message,
      )
  charged s cfg j (g, (none, warning)) =
      let (s', events) = warn (record s { gates = g }) j warning in
      (
        s',
        events
            ++ event_with_decision (record (event_on "tool.allowed" j) { args = j.tool.arguments })
                j.decision j.caller
              ∷ [],
        deliver cfg j,
      )

  -- `handleToolsCall` from `Charge` on
  unfoldable pub charge_call : State → Option ScopeResponseConfig → Journey → Clock → Left
  unfolding charged
  charge_call s cfg j clock =
      charged s cfg j (charge s.gates (call_of j.tool j.caller) j.decision clock)

  unfoldable pub rebuild : Journey → Modifications → Option Fields → List String → Scoped
  unfolding rebuild_request_body
  rebuild j mods args names = elim (rebuild_request_body h.json_map j.body args) [
    | err e ↦ violated "scope: failed to rebuild request"
    | ok body ↦
        scoped (record j { tool = record j.tool { arguments = args }; body = body })
          (record mods { injected_args = names })
  ]

  unfoldable pub rebuild_injected : Journey → Modifications → Injected → Scoped
  unfolding rebuild
  rebuild_injected j mods (injected args names) = rebuild j mods args names
  rebuild_injected j mods unfetched = violated "scope: credential injection failed"
  rebuild_injected j mods nil_map = crashed

  -- SCOPE of the request
  unfoldable pub scope_request : Journey → Option ScopeRequestConfig → Scoped
  unfolding modify_request rebuild_injected inject_credentials
  scope_request j none = scoped j unmodified
  scope_request j (some cfg) =
      let modified = modify_request h.to_lower j.tool.arguments (some cfg) in
      rebuild_injected j modified.1 (inject_with h.credentials cfg.inject_credentials modified)

  unfoldable pub after_scope : State → Option ScopeResponseConfig → Journey → Scoped → Clock → Left
  unfolding charge_call event_on event_with_decision
  after_scope s cfg j crashed clock = (s, [], panicked)
  after_scope s cfg j (violated message) clock = (s, [], reply j code_scope_violation message)
  after_scope s cfg j (scoped j' mods) clock =
      let e = record (event_on "scope.modified" j') {
        reason =
            "stripped="
            +++ show_texts mods.stripped_args
            +++ " injected="
            +++ show_texts mods.injected_args;
      } in
      let (s', events, outcome) = charge_call s cfg j' clock in
      (s', event_with_decision e j.decision j.caller ∷ events, outcome)

  -- `handleToolsCall` from SCOPE on
  unfoldable pub scope_call : State → Journey → Clock → Left
  unfolding after_scope scope_request
  scope_call s j clock =
      if j.decision.scoped
      then elim (scope_of j.decision.matched_rule) [
        | none ↦ charge_call s none j clock
        | some cfg ↦ after_scope s cfg.response j (scope_request j cfg.request) clock
      ]
      else charge_call s none j clock

  -- The resolution of the hold of a call that waits
  unfoldable pub resume : State → String → Journey → Resolution → Clock → Left
  unfolding scope_call event_on event_with_decision
  resume s id j resolution clock =
      if not resolution.is_approved
      then (
        s,
        event_with_decision
              (record (event_on "tool.denied" j) {
                gate = "hold";
                reason_class = hold_reason_class resolution.by;
                reason = "hold " +++ id +++ ": denied by " +++ resolution.by;
              })
              j.decision j.caller
            ∷ [],
        if resolution.by == "timeout"
            then reply j code_hold_timeout "hold timed out without approval"
            else reply j code_policy_denied ("hold denied by " +++ resolution.by),
      )
      else let approved =
          event_with_decision
            (record (event_on "hold.approved" j) {
              reason = "hold " +++ id +++ ": approved by " +++ resolution.by;
            })
            j.decision j.caller in
        let (s', events, outcome) = scope_call s j clock in (s', approved ∷ events, outcome)

  -- The time that a hold waits
  unfoldable pub timeout_of : HoldConfig → ℤ
  timeout_of cfg =
      if cfg.timeout == ""
      then pos (5 * minute)
      else elim (h.parse_duration cfg.timeout) [ none ↦ pos (5 * minute) | some parsed ↦ parsed ]

  -- A sleep of less than no time returns at once.
  abbrev pub wait_of : ℤ → ℕ
  wait_of (pos n) = n
  wait_of (negsuc n) = 0

  unfoldable pub hold_call : State → Manager → HoldConfig → Journey → String → ℕ → Left
  unfolding Hold.hold timeout_of event_on event_with_decision
  hold_call s m cfg j id now =
      let timeout = timeout_of cfg in
      let ask : Hold.Ask = record {
        tool = j.tool.name;
        arguments = j.tool.arguments;
        identity = j.caller.subject;
        session_id = j.caller.session_id;
        reason = j.decision.reason;
      } in
      (
        record s { holds = some (Hold.hold m id ask (wait_of timeout) now) },
        event_with_decision
              (record (event_on "hold.created" j) {
                reason =
                    "held: "
                    +++ j.decision.reason
                    +++ " (id="
                    +++ id
                    +++ ", timeout="
                    +++ h.show_duration timeout
                    +++ ")";
              })
              j.decision j.caller
            ∷ [],
        waiting id j,
      )

  -- A call that is not held
  unfoldable pub pass : State → Journey → Clock → Left
  unfolding scope_call event_on event_with_decision
  pass s j clock =
      if not j.decision.allowed
      then (
        s,
        event_with_decision (record (event_on "tool.denied" j) { reason = j.decision.reason })
              j.decision j.caller
            ∷ [],
        reply j code_policy_denied ("denied by policy: " +++ j.decision.reason),
      )
      else scope_call s j clock

  -- `handleToolsCall` from the decision on
  unfoldable pub judge : State → Journey → String → ℕ → Clock → Left
  unfolding hold_call pass
  judge s j id now clock =
      if j.decision.held
      then elim s.holds [
        | none ↦ pass s j clock
        | some m ↦ elim (hold_of j.decision.matched_rule) [
          | none ↦ pass s j clock
          | some cfg ↦ hold_call s m cfg j id now
        ]
      ]
      else pass s j clock

  -- `policy.Request` of a tool call
  abbrev pub policy_request : JsonRpcRequest → ToolsCallParams → Identity → Request
  policy_request req tool caller = record {
    method = req.method;
    tool_name = tool.name;
    arguments = tool.arguments;
    identity = some caller;
    transport = "";
    target = "";
    operation = "";
    action = "";
    params = [];
    run = none;
  }

  unfoldable pub decided :
      State
      → JsonRpcRequest
      → String
      → ToolsCallParams
      → String
      → Identity
      → String
      → ℕ
      → Clock
      → Option Decision
      → Left
  unfolding judge
  decided s req path tool body caller id now clock none = (s, [], panicked)
  decided s req path tool body caller id now clock (some d) =
      judge s
        (record {
          request = req;
          path = path;
          tool = tool;
          body = body;
          caller = caller;
          decision = d;
        })
        id now clock

  unfoldable pub admitted :
      State
      → JsonRpcRequest
      → String
      → ToolsCallParams
      → String
      → Identity
      → String
      → ℕ
      → Clock
      → Option Refusal
      → Left
  unfolding decided gate_event gate_error
  admitted s req path tool body caller id now clock (some r) =
      let (g, e) = gate_event s.gates caller.session_id r req.method tool.name in
      let (code, message) = gate_error r tool.name in
      (
        record s { gates = g },
        event_with_identity e caller ∷ [],
        replied (new_error_response req.id code message),
      )
  admitted s req path tool body caller id now clock none =
      decided s req path tool body caller id now clock
        (evaluate h.cel h.engine (policy_request req tool caller))

  -- `handleToolsCall`, up to the wait for a hold or for the upstream
  unfoldable pub handle_tools_call :
      State → JsonRpcRequest → String → String → Identity → String → ℕ → Clock → Left
  unfolding admitted parse_tools_call
  handle_tools_call s req path body caller id now clock = elim (parse_tools_call h.json req) [
    | err e ↦ (s, [], replied (new_error_response req.id code_invalid_par e))
    | ok tool ↦
        admitted s req path tool body caller id now clock (admit s.gates (call_of tool caller) now)
  ]
