-- ===== src/Proxy/Calls/Passed.antt =====
-- What a tool call has passed that `handleToolsCall` of pkg/proxy/handler.go sends to the upstream.
use nullfield.Prelude.{
  ℕ, ◌≡◌, refl, sym, ◌∙◌, ap, ◌≢◌, ◌==◌, ◌⊎◌, inl, inr, String, Bool, true, false, not, List, [],
  Option, none, some, arith, if◌then◌else◌, Bool-cases, Result, Result-cases, ok, err,
}
use nullfield.Value.{Fields}
use nullfield.Api.{HoldConfig, ScopeConfig, ScopeRequestConfig, ScopeResponseConfig}
use nullfield.Identity.{Identity}
use nullfield.Policy.Engine.{Decision}
use nullfield.Policy.Rules.{evaluate}
use nullfield.Gates.{Gates, Refusal, Clock, admit, charge}
use nullfield.Gates.Outcomes.{Admissible, admit_iff}
use nullfield.Hold.{Manager, Resolution}
use nullfield.Scope.{Modifications, rebuild_request_body, modify_request}
use nullfield.Mcp.{
  JsonRpcRequest, ToolsCallParams, new_error_response, code_invalid_par, parse_tools_call,
}
use nullfield.Proxy.Outcome.{
  Handler, State, Journey, Outcome, replied, forwarded, waiting, posted, panicked, Left, call_of,
}
use nullfield.Proxy.Calls.{
  charged, charge_call, Injected, injected, unfetched, nil_map, inject_with, Scoped, scoped,
  violated, crashed, rebuild, rebuild_injected, scope_request, scope_of, hold_of, after_scope,
  scope_call, resume, hold_call, pass, judge, policy_request, decided, admitted, handle_tools_call,
}

-- The call goes to the upstream.
unfoldable pub is_sent : Outcome → Bool
is_sent (replied r) = false
is_sent (forwarded body) = true
is_sent (waiting id j) = false
is_sent (posted cfg j) = true
is_sent panicked = false

false-ne-true : false ≢ true
false-ne-true e = ground arith

if-sent :
    (b : Bool) (x y : Left)
    → is_sent (if b then x else y).2 ≡ true
    → ((b ≡ true) × (is_sent x.2 ≡ true)) ⊎ ((b ≡ false) × (is_sent y.2 ≡ true))
if-sent true x y e = inl (refl, e)
if-sent false x y e = inr (refl, e)

-- The rewriting keeps the caller, the tool and the decision.
Keeps : Journey → Scoped → Type 0
Keeps j (scoped j' mods) =
    (call_of j'.tool j'.caller ≡ call_of j.tool j.caller) × (j'.decision ≡ j.decision)
Keeps j (violated message) = Unit {0}
Keeps j crashed = Unit {0}

module _ {Ast Program Re : Type 0} (h : Handler Ast Program Re) where
  rebuild-Keeps :
      (j : Journey) (mods : Modifications) (args : Option Fields) (names : List String)
      → Keeps j (rebuild h j mods args names)
  unfolding rebuild Keeps
  rebuild-Keeps j mods args names =
      elim (Result-cases (rebuild_request_body h.json_map j.body args)) [
        | inl (body, e) ↦ rw (e, rebuild) (refl, refl)
        | inr (message, e) ↦ rw (e, rebuild) tt
      ]

  rebuild_injected-Keeps :
      (j : Journey) (mods : Modifications) (i : Injected) → Keeps j (rebuild_injected h j mods i)
  unfolding rebuild_injected Keeps
  rebuild_injected-Keeps j mods (injected args names) = rebuild-Keeps j mods args names
  rebuild_injected-Keeps j mods unfetched = tt
  rebuild_injected-Keeps j mods nil_map = tt

  scope_request-Keeps :
      (j : Journey) (cfg : Option ScopeRequestConfig) → Keeps j (scope_request h j cfg)
  unfolding scope_request Keeps
  scope_request-Keeps j none = (refl, refl)
  scope_request-Keeps j (some cfg) =
      let modified = modify_request h.to_lower j.tool.arguments (some cfg) in
      rebuild_injected-Keeps j modified.1
        (inject_with h.credentials cfg.inject_credentials modified)

  -- The gates charge the call without a refusal.
  abbrev pub Charges : State → Journey → Clock → Type 0
  Charges s j clock = (charge s.gates (call_of j.tool j.caller) j.decision clock).1.0 ≡ none

  charged-sent :
      (s : State) (cfg : Option ScopeResponseConfig) (j : Journey)
      (r : Gates × (Option Refusal × Option Refusal))
      → is_sent (charged h s cfg j r).2 ≡ true
      → r.1.0 ≡ none
  unfolding charged is_sent
  charged-sent s cfg j (g, (some r, w)) e = absurd (false-ne-true e)
  charged-sent s cfg j (g, (none, w)) e = refl

  after_scope-sent :
      (s : State) (cfg : Option ScopeResponseConfig) (j : Journey) (x : Scoped) (clock : Clock)
      → Keeps j x
      → is_sent (after_scope h s cfg j x clock).2 ≡ true
      → Charges s j clock
  unfolding after_scope is_sent Keeps charge_call
  after_scope-sent s cfg j (scoped j' mods) clock (call, decision) e =
      ap (λ c. (charge s.gates c j.decision clock).1.0) (sym call)
      ∙ ap (λ d. (charge s.gates (call_of j'.tool j'.caller) d clock).1.0) (sym decision)
      ∙ charged-sent s cfg j' _ e
  after_scope-sent s cfg j (violated message) clock k e = absurd (false-ne-true e)
  after_scope-sent s cfg j crashed clock k e = absurd (false-ne-true e)

  scope_call-sent :
      (s : State) (j : Journey) (clock : Clock)
      → is_sent (scope_call h s j clock).2 ≡ true
      → Charges s j clock
  unfolding scope_call charge_call
  scope_call-sent s j clock = go j.decision.scoped (scope_of j.decision.matched_rule)
    where
      go :
          (b : Bool) (o : Option ScopeConfig)
          → is_sent
              (if b
                then elim o [
                  | none ↦ charge_call h s none j clock
                  | some cfg ↦ after_scope h s cfg.response j (scope_request h j cfg.request) clock
                ]
                else charge_call h s none j clock).2
            ≡ true
          → Charges s j clock
      go false o e = charged-sent s none j _ e
      go true none e = charged-sent s none j _ e
      go true (some cfg) e =
          after_scope-sent s cfg.response j _ clock (scope_request-Keeps j cfg.request) e

  -- A call that waited for its hold is sent only if the hold was approved, and the gates charge it
  -- without a refusal.
  pub resume-sent :
      (s : State) (id : String) (j : Journey) (resolution : Resolution) (clock : Clock)
      → is_sent (resume h s id j resolution clock).2 ≡ true
      → (resolution.is_approved ≡ true) × Charges s j clock
  unfolding resume is_sent
  resume-sent s id j resolution clock e = elim (if-sent (not resolution.is_approved) _ _ e) [
    | inl (_, replies) ↦ elim (Bool-cases (resolution.by == "timeout")) [
      | inl same ↦ absurd (false-ne-true (rw same at replies))
      | inr other ↦ absurd (false-ne-true (rw other at replies))
    ]
    | inr (is, sends) ↦ (ground arith, scope_call-sent s j clock sends)
  ]

  pass-sent :
      (s : State) (j : Journey) (clock : Clock)
      → is_sent (pass h s j clock).2 ≡ true
      → (j.decision.allowed ≡ true) × Charges s j clock
  unfolding pass is_sent
  pass-sent s j clock e = elim (if-sent (not j.decision.allowed) _ _ e) [
    | inl (_, replies) ↦ absurd (false-ne-true replies)
    | inr (is, sends) ↦ (ground arith, scope_call-sent s j clock sends)
  ]

  judge-sent :
      (s : State) (j : Journey) (id : String) (now : ℕ) (clock : Clock)
      → is_sent (judge h s j id now clock).2 ≡ true
      → (j.decision.allowed ≡ true) × Charges s j clock
  unfolding judge hold_call is_sent
  judge-sent s j id now clock = go j.decision.held s.holds (hold_of j.decision.matched_rule)
    where
      go :
          (b : Bool) (o : Option Manager) (c : Option HoldConfig)
          → is_sent
              (if b
                then elim o [
                  | none ↦ pass h s j clock
                  | some m ↦ elim c [
                    | none ↦ pass h s j clock
                    | some cfg ↦ hold_call h s m cfg j id now
                  ]
                ]
                else pass h s j clock).2
            ≡ true
          → (j.decision.allowed ≡ true) × Charges s j clock
      go false o c e = pass-sent s j clock e
      go true none c e = pass-sent s j clock e
      go true (some m) none e = pass-sent s j clock e
      go true (some m) (some cfg) e = absurd (false-ne-true e)

  -- What a tool call has passed: the registry and the breaker, the policy, which allows it, and the
  -- gates that charge it.
  pub record Passed (s : State) (req : JsonRpcRequest) (caller : Identity) (now : ℕ) (clock : Clock)
      : Type 0 where
    pub tool : ToolsCallParams
    pub parsed : parse_tools_call h.json req ≡ ok tool
    pub admissible : Admissible s.gates (call_of tool caller) now
    pub decision : Decision
    pub by_policy : evaluate h.cel h.engine (policy_request h req tool caller) ≡ some decision
    pub allowed : decision.allowed ≡ true
    pub charges : (charge s.gates (call_of tool caller) decision clock).1.0 ≡ none

  decided-sent :
      (s : State) (req : JsonRpcRequest) (path : String) (tool : ToolsCallParams) (body : String)
      (caller : Identity) (id : String) (now : ℕ) (clock : Clock) (x : Option Decision)
      → is_sent (decided h s req path tool body caller id now clock x).2 ≡ true
      → (d : Decision) × (x ≡ some d)
        × (d.allowed ≡ true)
        × ((charge s.gates (call_of tool caller) d clock).1.0 ≡ none)
  unfolding decided is_sent
  decided-sent s req path tool body caller id now clock none e = absurd (false-ne-true e)
  decided-sent s req path tool body caller id now clock (some d) e =
      let (allowed, charges) = judge-sent s _ id now clock e in (d, refl, allowed, charges)

  admitted-sent :
      (s : State) (req : JsonRpcRequest) (path : String) (tool : ToolsCallParams) (body : String)
      (caller : Identity) (id : String) (now : ℕ) (clock : Clock) (r : Option Refusal)
      → parse_tools_call h.json req ≡ ok tool
      → admit s.gates (call_of tool caller) now ≡ r
      → is_sent (admitted h s req path tool body caller id now clock r).2 ≡ true
      → Passed s req caller now clock
  unfolding admitted is_sent
  admitted-sent s req path tool body caller id now clock (some r) parsed is e =
      absurd (false-ne-true e)
  admitted-sent s req path tool body caller id now clock none parsed is e =
      let (d, by_policy, allowed, charges) =
        decided-sent s req path tool body caller id now clock _ e in
      record {
        tool = tool;
        parsed = parsed;
        admissible = (admit_iff s.gates (call_of tool caller) now).0 is;
        decision = d;
        by_policy = by_policy;
        allowed = allowed;
        charges = charges;
      }

  -- A tool call that is sent to the upstream without a wait was parsed; the registry and the breaker
  -- admit it; the policy allows it; and the gates charge it without a refusal.
  pub handle_tools_call-sent :
      (s : State) (req : JsonRpcRequest) (path body : String) (caller : Identity) (id : String)
      (now : ℕ) (clock : Clock)
      → is_sent (handle_tools_call h s req path body caller id now clock).2 ≡ true
      → Passed s req caller now clock
  unfolding handle_tools_call is_sent
  handle_tools_call-sent s req path body caller id now clock e =
      go (parse_tools_call h.json req) refl e
    where
      go :
          (r : Result ToolsCallParams)
          → parse_tools_call h.json req ≡ r
          → is_sent
              (elim r as (λ _. Left) [
                | err m ↦ (s, [], replied (new_error_response req.id code_invalid_par m))
                | ok tool ↦
                    admitted h s req path tool body caller id now clock
                      (admit s.gates (call_of tool caller) now)
              ]).2
            ≡ true
          → Passed s req caller now clock
      go (err m) is e = absurd (false-ne-true e)
      go (ok tool) is e = admitted-sent s req path tool body caller id now clock _ is refl e
