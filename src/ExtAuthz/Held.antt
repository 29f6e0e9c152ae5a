-- ===== src/ExtAuthz/Held.antt =====
-- What pkg/extauthz/response.go makes of a decision of the rules of pkg/policy/rules.go.
use nullfield.Prelude.{
  ne_of_eq-false, ◌≡◌, refl, ◌≢◌, ◌⊎◌, inl, inr, Bool-cases, String, Bool, true, false, not, some,
  ◌==◌, eq_iff, arith, if◌then◌else◌,
}
use nullfield.Policy.Engine.{Request, Decision}
use nullfield.Policy.Cel.{Cel}
use nullfield.Policy.Rules.{RuleEngine, evaluate}
use nullfield.Policy.Rules.Consistent.{IsConsistent, evaluate-IsConsistent}
use nullfield.ExtAuthz.{mode_enforce, ok, denied, counterfactual, counterfactual_for, respond}

-- Either the mode is the enforcing one, the decision does not allow the call, and the answer refuses
-- it with the decision's reason; or one of the two does not hold, and the answer is to go on.
pub respond_lem :
    (mode : String) (d : Decision)
    → ((mode ≡ mode_enforce) × (d.allowed ≡ false) × (respond mode d ≡ denied d.reason))
      ⊎ (((mode ≢ mode_enforce) ⊎ (d.allowed ≡ true)) × (respond mode d ≡ ok))
unfolding respond
respond_lem mode d = elim (Bool-cases d.allowed) [
  | inl yes' ↦ inr (inr yes', ground arith)
  | inr no' ↦ elim (Bool-cases (mode == mode_enforce)) [
    | inl same ↦ inl ((eq_iff mode mode_enforce).0 same, no', ground arith)
    | inr other ↦ inr (inl (λ e. ground (arith, eq_iff mode mode_enforce)), ground arith)
  ]
]

-- The three texts that are left are not HOLD.
pick :
    (a h s : Bool)
    → (h ≡ true → a ≡ false)
    → ((if not a then "DENY" else if h then "HOLD" else if s then "SCOPE" else "ALLOW") == "HOLD")
      ≡ false
pick false h s c = refl
pick true true s c = absurd (true-ne-false (c refl))
  where
    true-ne-false : true ≢ false
    true-ne-false e = ground arith
pick true false true c = refl
pick true false false c = refl

counterfactual-held : (d : Decision) → IsConsistent d → (counterfactual d == "HOLD") ≡ false
unfolding counterfactual
counterfactual-held d c = pick d.allowed d.held d.scoped c.of_held

unless : (b : Bool) (s : String) → (s == "HOLD") ≡ false → ((if b then "" else s) == "HOLD") ≡ false
unless true s h = refl
unless false s h = h

counterfactual_for_test :
    (mode : String) (d : Decision) → IsConsistent d → (counterfactual_for mode d == "HOLD") ≡ false
unfolding counterfactual_for
counterfactual_for_test mode d c =
    unless (mode == mode_enforce) (counterfactual d) (counterfactual-held d c)

-- The counterfactual of a decision that the rules make is never HOLD, in any mode.
pub counterfactual_for-held :
    {Ast Program : Type 0} (cel : Cel Ast Program) (e : RuleEngine Program) (req : Request)
    (mode : String) (d : Decision)
    → evaluate cel e req ≡ some d
    → counterfactual_for mode d ≢ "HOLD"
counterfactual_for-held cel e req mode d h =
    ne_of_eq-false (counterfactual_for mode d) "HOLD"
      (counterfactual_for_test mode d (evaluate-IsConsistent cel e req d h))
