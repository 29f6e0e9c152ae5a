-- ===== src/Policy/Rules/Consistent.antt =====
-- The three flags of a decision of pkg/policy/rules.go.
use mathlib.Core.Option.{some-injective}
use mathlib.Core.Path.{subst}
use nullfield.Prelude.{ℕ, suc, ◌≡◌, refl, ap, ◌∙◌, true, false, List, [], ◌∷◌, none, some, arith}
use nullfield.Api.{Rule}
use nullfield.Policy.Engine.{Request, Decision}
use nullfield.Policy.Cel.{Cel}
use nullfield.Policy.Rules.{
  CelMatch, Step, next, finish, crash, RuleEngine, new_rule_decision, default_deny,
  expression_error, identity_required, act, after_cel, judge, matches_cel, evaluate_from, evaluate,
}

-- A decision that holds a call does not allow it, and one that scopes a call does.
pub record IsConsistent (d : Decision) : Type 0 where
  pub of_held : d.held ≡ true → d.allowed ≡ false
  pub of_scoped : d.scoped ≡ true → d.allowed ≡ true

act-IsConsistent :
    (i : ℕ) (rule : Rule) (req : Request) (d : Decision) → act i rule req ≡ some d → IsConsistent d
unfolding act new_rule_decision
act-IsConsistent i rule req d e = record {
  of_held = λ h. ground arith;
  of_scoped = λ h. ground arith;
}

judge-IsConsistent :
    (answer : CelMatch) (i : ℕ) (rule : Rule) (req : Request) (d : Decision)
    → judge answer i rule req ≡ finish d
    → IsConsistent d
unfolding judge after_cel expression_error identity_required new_rule_decision
judge-IsConsistent answer i rule req d e = record {
  of_held = λ h. ground (arith, act-IsConsistent i rule req d);
  of_scoped = λ h. ground (arith, act-IsConsistent i rule req d);
}

module _ {Ast Program : Type 0} (cel : Cel Ast Program) (e : RuleEngine Program)
    (req : Request) where
  evaluate_from-IsConsistent :
      (i : ℕ) (rules : List Rule) (d : Decision)
      → evaluate_from cel e req i rules ≡ some d
      → IsConsistent d
  unfolding evaluate_from default_deny
  evaluate_from-IsConsistent i [] d h =
      subst IsConsistent (some-injective default_deny d h)
        (record { of_held = λ k. refl; of_scoped = λ k. ground arith })
  evaluate_from-IsConsistent i (rule ∷ rules) d h =
      of_step (judge (matches_cel cel e i req) i rule req)
        (evaluate_from-IsConsistent (suc i) rules d) refl h
    where
      of_step :
          (s : Step)
          → (evaluate_from cel e req (suc i) rules ≡ some d → IsConsistent d)
          → judge (matches_cel cel e i req) i rule req ≡ s
          → (elim s [
            | crash ↦ none
            | finish d' ↦ some d'
            | next ↦ evaluate_from cel e req (suc i) rules
          ])
            ≡ some d
          → IsConsistent d
      of_step next rest j k = rest k
      of_step (finish d') rest j k =
          judge-IsConsistent (matches_cel cel e i req) i rule req d
            (j ∙ ap finish (some-injective d' d k))
      of_step crash rest j k = absurd (ground arith)

  -- Whatever the engine and the request, a decision that holds a call does not allow it, and one
  -- that scopes a call does.
  pub evaluate-IsConsistent : (d : Decision) → evaluate cel e req ≡ some d → IsConsistent d
  unfolding evaluate
  evaluate-IsConsistent d h = evaluate_from-IsConsistent 0 e.rules d h
