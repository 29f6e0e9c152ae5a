-- ===== src/Proxy/Calls/Trail.antt =====
-- The trail that `handleToolsCall` of pkg/proxy/handler.go leaves of the calls that it sends on.
use nullfield.Prelude.{
  ℕ, suc, ◌≡◌, refl, inl, inr, String, Bool, true, false, not, ◌||◌, List, [], ◌∷◌, Option, none,
  some, ◌==◌, if◌then◌else◌, Bool-cases, Result, ok, err,
}
use nullfield.Api.{HoldConfig, ScopeConfig, ScopeResponseConfig}
use nullfield.Identity.{Identity}
use nullfield.Policy.Engine.{Decision}
use nullfield.Gates.{Gates, Refusal, Clock, admit, charge, gate_circuit, gate_anomaly}
use nullfield.Policy.Rules.{evaluate}
use nullfield.Hold.{Manager, Resolution}
use nullfield.Mcp.{
  JsonRpcRequest, ToolsCallParams, new_error_response, code_invalid_par, parse_tools_call,
}
use nullfield.Audit.{AuditEvent, event_of}
use nullfield.Proxy.Context.{gate_event, tripped_by, event_with_decision}
use nullfield.Proxy.Outcome.{Handler, State, Journey, replied, Left, call_of}
use nullfield.Proxy.Calls.{
  event_on, deliver, warn, redacts, needs_inspection, charged, charge_call, Scoped, scoped,
  violated, crashed, scope_request, scope_of, hold_of, after_scope, scope_call, resume, hold_call,
  pass, judge, policy_request, decided, admitted, handle_tools_call,
}
use nullfield.Proxy.Calls.Passed.{is_sent}

-- How many of the events say that a tool call was allowed
unfoldable pub allowed_calls : List AuditEvent → ℕ
allowed_calls [] = 0
allowed_calls (e ∷ events) =
    if e.type == "tool.allowed" then suc (allowed_calls events) else allowed_calls events

-- One such event for a call that is sent, and none otherwise
unfoldable pub Told : Left → Type 0
unfolding allowed_calls is_sent
Told l = allowed_calls l.1 ≡ (if is_sent l.2 then 1 else 0)

if-Told : (b : Bool) (x y : Left) → Told x → Told y → Told (if b then x else y)
if-Told true x y h k = h
if-Told false x y h k = k

typed :
    (a b c : Bool) (g' g : Gates) (e : AuditEvent)
    → (e.type == "tool.allowed") ≡ false
    → ((if◌then◌else◌ {A = Gates × AuditEvent} a
          (g', record e { type = if c then "circuit.tripped" else "tool.denied" })
          (if b then (g, record e { type = "anomaly.velocity" }) else (g, e))).1.type
        == "tool.allowed")
      ≡ false
typed true b true g' g e h = refl
typed true b false g' g e h = refl
typed false true c g' g e h = refl
typed false false c g' g e h = h

gate_event-type :
    (g : Gates) (session : String) (r : Refusal) (method tool : String)
    → ((gate_event g session r method tool).1.type == "tool.allowed") ≡ false
unfolding gate_event
gate_event-type g session r method tool =
    typed (r.gate == gate_circuit) (r.gate == gate_anomaly) (tripped_by g.breaker session).1
      (record g { breaker = (tripped_by g.breaker session).0 }) g
      (record (event_of "tool.denied") {
        method = method;
        tool_name = tool;
        gate = r.gate;
        reason_class = r.reason_class;
        reason = r.reason;
      })
      refl

-- What is added to an event leaves its type.
event_with_decision-type :
    (e : AuditEvent) (d : Decision) (id : Identity) → (event_with_decision e d id).type ≡ e.type
unfolding event_with_decision
event_with_decision-type e d id = refl

module _ {Ast Program Re : Type 0} (h : Handler Ast Program Re) where
  deliver-is_sent :
      (cfg : Option ScopeResponseConfig) (j : Journey) → is_sent (deliver h cfg j) ≡ true
  unfolding deliver is_sent
  deliver-is_sent cfg j = elim (Bool-cases (redacts cfg || needs_inspection h j.decision)) [
    | inl e ↦ rw (e, deliver) refl
    | inr e ↦ rw (e, deliver) refl
  ]

  charged-Told :
      (s : State) (cfg : Option ScopeResponseConfig) (j : Journey)
      (r : Gates × (Option Refusal × Option Refusal))
      → Told (charged h s cfg j r)
  unfolding charged warn Told allowed_calls event_on
  charged-Told s cfg j (g, (some r, w)) =
      rw
        (
          event_with_decision-type,
          gate_event-type g j.caller.session_id r j.request.method j.tool.name,
        )
        refl
  charged-Told s cfg j (g, (none, none)) = rw (deliver-is_sent cfg j) refl
  charged-Told s cfg j (g, (none, some w)) =
      rw
        (
          event_with_decision-type,
          gate_event-type g j.caller.session_id w j.request.method j.tool.name,
          deliver-is_sent cfg j,
        )
        refl

  charge_call-Told :
      (s : State) (cfg : Option ScopeResponseConfig) (j : Journey) (clock : Clock)
      → Told (charge_call h s cfg j clock)
  unfolding charge_call
  charge_call-Told s cfg j clock =
      charged-Told s cfg j (charge s.gates (call_of j.tool j.caller) j.decision clock)

  after_scope-Told :
      (s : State) (cfg : Option ScopeResponseConfig) (j : Journey) (x : Scoped) (clock : Clock)
      → Told (after_scope h s cfg j x clock)
  unfolding after_scope Told is_sent allowed_calls
  after_scope-Told s cfg j (scoped j' mods) clock = charge_call-Told s cfg j' clock
  after_scope-Told s cfg j (violated message) clock = refl
  after_scope-Told s cfg j crashed clock = refl

  scope_call-Told : (s : State) (j : Journey) (clock : Clock) → Told (scope_call h s j clock)
  unfolding scope_call
  scope_call-Told s j clock =
      if-Told j.decision.scoped _ _ (go (scope_of j.decision.matched_rule))
        (charge_call-Told s none j clock)
    where
      go :
          (o : Option ScopeConfig)
          → Told (elim o as (λ _. Left) [
            | none ↦ charge_call h s none j clock
            | some cfg ↦ after_scope h s cfg.response j (scope_request h j cfg.request) clock
          ])
      go none = charge_call-Told s none j clock
      go (some cfg) = after_scope-Told s cfg.response j (scope_request h j cfg.request) clock

  -- One event more that is none of allowed calls
  resume-Told :
      (s : State) (id : String) (j : Journey) (resolution : Resolution) (clock : Clock)
      → Told (resume h s id j resolution clock)
  unfolding resume Told is_sent allowed_calls event_on
  resume-Told s id j resolution clock =
      if-Told (not resolution.is_approved) _ _
        (elim (Bool-cases (resolution.by == "timeout")) [ inl e ↦ rw e refl | inr e ↦ rw e refl ])
        (scope_call-Told s j clock)

  pass-Told : (s : State) (j : Journey) (clock : Clock) → Told (pass h s j clock)
  unfolding pass Told is_sent allowed_calls event_on
  pass-Told s j clock = if-Told (not j.decision.allowed) _ _ refl (scope_call-Told s j clock)

  judge-Told :
      (s : State) (j : Journey) (id : String) (now : ℕ) (clock : Clock)
      → Told (judge h s j id now clock)
  unfolding judge hold_call Told is_sent allowed_calls event_on
  judge-Told s j id now clock =
      if-Told j.decision.held _ _ (go s.holds (hold_of j.decision.matched_rule))
        (pass-Told s j clock)
    where
      go :
          (o : Option Manager) (c : Option HoldConfig)
          → Told (elim o as (λ _. Left) [
            | none ↦ pass h s j clock
            | some m ↦ elim c as (λ _. Left) [
              | none ↦ pass h s j clock
              | some cfg ↦ hold_call h s m cfg j id now
            ]
          ])
      go none c = pass-Told s j clock
      go (some m) none = pass-Told s j clock
      go (some m) (some cfg) = refl

  decided-Told :
      (s : State) (req : JsonRpcRequest) (path : String) (tool : ToolsCallParams) (body : String)
      (caller : Identity) (id : String) (now : ℕ) (clock : Clock) (x : Option Decision)
      → Told (decided h s req path tool body caller id now clock x)
  unfolding decided Told is_sent allowed_calls
  decided-Told s req path tool body caller id now clock none = refl
  decided-Told s req path tool body caller id now clock (some d) =
      let j : Journey = record {
        request = req;
        path = path;
        tool = tool;
        body = body;
        caller = caller;
        decision = d;
      } in
      judge-Told s j id now clock

  admitted-Told :
      (s : State) (req : JsonRpcRequest) (path : String) (tool : ToolsCallParams) (body : String)
      (caller : Identity) (id : String) (now : ℕ) (clock : Clock) (r : Option Refusal)
      → Told (admitted h s req path tool body caller id now clock r)
  unfolding admitted Told is_sent allowed_calls
  admitted-Told s req path tool body caller id now clock (some r) =
      rw (gate_event-type s.gates caller.session_id r req.method tool.name) refl
  admitted-Told s req path tool body caller id now clock none =
      decided-Told s req path tool body caller id now clock
        (evaluate h.cel h.engine (policy_request h req tool caller))

  handle_tools_call-Told :
      (s : State) (req : JsonRpcRequest) (path body : String) (caller : Identity) (id : String)
      (now : ℕ) (clock : Clock)
      → Told (handle_tools_call h s req path body caller id now clock)
  unfolding handle_tools_call Told is_sent allowed_calls
  handle_tools_call-Told s req path body caller id now clock = go (parse_tools_call h.json req)
    where
      go :
          (r : Result ToolsCallParams)
          → Told (elim r as (λ _. Left) [
            | err m ↦ (s, [], replied (new_error_response req.id code_invalid_par m))
            | ok tool ↦
                admitted h s req path tool body caller id now clock
                  (admit s.gates (call_of tool caller) now)
          ])
      go (err m) = refl
      go (ok tool) =
          admitted-Told s req path tool body caller id now clock
            (admit s.gates (call_of tool caller) now)

  -- Of every tool call, at once or after its hold is resolved: the proxy emits one event of type
  -- tool.allowed if it sends the call to the upstream, and none if it does not.
  pub handle_tools_call-allowed_calls :
      (s : State) (req : JsonRpcRequest) (path body : String) (caller : Identity) (id : String)
      (now : ℕ) (clock : Clock) (j : Journey) (resolution : Resolution)
      → (allowed_calls (handle_tools_call h s req path body caller id now clock).1
          ≡ (if is_sent (handle_tools_call h s req path body caller id now clock).2 then 1 else 0))
        × (allowed_calls (resume h s id j resolution clock).1
            ≡ (if is_sent (resume h s id j resolution clock).2 then 1 else 0))
  unfolding Told
  handle_tools_call-allowed_calls s req path body caller id now clock j resolution = (
    handle_tools_call-Told s req path body caller id now clock,
    resume-Told s id j resolution clock,
  )
