-- ===== src/Gates/Outcomes.antt =====
-- What `Admit` and `Charge` of pkg/gates/gates.go do to a call and to the gates.
use mathlib.Core.Option.{some-injective}
use nullfield.Prelude.{
  ℕ, ◌≡◌, refl, ◌≢◌, ◌↔◌, ◌⊎◌, inl, inr, String, true, [], ◌++◌, Option, none, some, ◌==◌, eq_iff,
  arith, Bool-cases,
}
use nullfield.Api.{Rule, BudgetConfig}
use nullfield.Policy.Engine.{Decision}
use nullfield.Registry.{Registry, is_registered}
use nullfield.Circuit.{Breaker, is_allowed}
use nullfield.Gates.{
  gate_budget, gate_anomaly, gate_rate, Gates, Call, Refusal, Clock, knows_tool, lets_through,
  admit, rule_limits, tool_limits, count_session,
}

-- The registry, if there is one, lists the tool, if the call names one; and the breaker, if there
-- is one, allows the session.
pub record Admissible (g : Gates) (c : Call) (now : ℕ) : Type 0 where
  pub listed : (r : Registry) → g.registry ≡ some r → c.tool ≢ "" → is_registered r c.tool ≡ true
  pub closed : (b : Breaker) → g.breaker ≡ some b → is_allowed b c.session now ≡ true

knows_tool_iff :
    (registry : Option Registry) (tool : String)
    → (knows_tool registry tool ≡ true)
      ↔ ((r : Registry) → registry ≡ some r → is_registered r tool ≡ true)
knows_tool_iff none tool = ((λ _ r e. cc), λ _. refl)
knows_tool_iff (some r) tool = ((λ h r' e. rw (← some-injective r r' e) h), λ h. h r refl)

lets_through_iff :
    (breaker : Option Breaker) (session : String) (now : ℕ)
    → (lets_through breaker session now ≡ true)
      ↔ ((b : Breaker) → breaker ≡ some b → is_allowed b session now ≡ true)
lets_through_iff none session now = ((λ _ b e. cc), λ _. refl)
lets_through_iff (some b) session now = ((λ h b' e. rw (← some-injective b b' e) h), λ h. h b refl)

admit_tests :
    (g : Gates) (c : Call) (now : ℕ)
    → (admit g c now ≡ none) ↔ (
        ((c.tool ≡ "") ⊎ (knows_tool g.registry c.tool ≡ true))
        × (lets_through g.breaker c.session now ≡ true))
unfolding admit
admit_tests g c now = ground (arith, eq_iff c.tool "")

-- `Admit` lets a call through exactly if the registry, where there is one, lists the tool that the
-- call names, if it names one, and the breaker, where there is one, allows the session.
pub admit_iff : (g : Gates) (c : Call) (now : ℕ) → (admit g c now ≡ none) ↔ Admissible g c now
admit_iff g c now = (
  (λ h.
      let (tool, session) = (admit_tests g c now).0 h in
      record {
        listed = λ r e named. elim tool [
          | inl unnamed ↦ absurd (named unnamed)
          | inr known ↦ (knows_tool_iff g.registry c.tool).0 known r e
        ];
        closed = (lets_through_iff g.breaker c.session now).0 session;
      }),
  λ a. (admit_tests g c now).1 (
    elim (Bool-cases (c.tool == "")) [
      | inl unnamed ↦ inl ((eq_iff c.tool "").0 unnamed)
      | inr named ↦ inr (
          (knows_tool_iff g.registry c.tool).1
            (λ r e. a.listed r e (λ same. cc ((eq_iff c.tool "").1 same))))
    ],
    (lets_through_iff g.breaker c.session now).1 a.closed,
  ),
)

-- The gate that refuses, and no text if none does.
abbrev pub gate_of : Option Refusal → String
gate_of none = ""
gate_of (some r) = r.gate

-- How `Charge` ends, in the gates `h`: refused by a rate limit, with nothing charged to a budget,
-- the breaker or the velocity window; refused by a budget, with nothing charged to the breaker or
-- the window; or counted by the breaker, and then refused by the velocity gate or let through,
-- with a warning at most where it is let through.
pub data Outcome (g : Gates) (c : Call) (clock : Clock) (h : Gates)
    (refusal warning : Option Refusal) : Type 0 where
  over_rate :
      gate_of refusal ≡ gate_rate
      → warning ≡ none
      → h.budgets ≡ g.budgets
      → h.breaker ≡ g.breaker
      → h.velocity ≡ g.velocity
      → Outcome g c clock h refusal warning
  over_budget :
      gate_of refusal ≡ gate_budget
      → warning ≡ none
      → h.breaker ≡ g.breaker
      → h.velocity ≡ g.velocity
      → Outcome g c clock h refusal warning
  counted :
      h.breaker ≡ (count_session g c clock.breaker_at).breaker
      → (refusal ≡ none) ⊎ ((gate_of refusal ≡ gate_anomaly) × (warning ≡ none))
      → Outcome g c clock h refusal warning

-- Whoever a limit is to be charged to is known.
pub record Attributable (g : Gates) (c : Call) (d : Decision) : Type 0 where
  pub rate :
      rule_limits d ++ tool_limits g.registry c.tool ≢ [] → (c.subject ≢ "") × (g.rates ≢ none)
  pub budget :
      (rule : Rule) (bc : BudgetConfig)
      → g.budgets ≢ none
      → d.matched_rule ≡ some rule
      → rule.budget ≡ some bc
      → (bc.per_identity ≢ none → c.subject ≢ "") × (bc.per_session ≢ none → c.session ≢ "")
