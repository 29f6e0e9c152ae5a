-- ===== src/Policy/Rules/Answers.antt =====
-- Why the loop of `Evaluate` of pkg/policy/rules.go finishes with a rule, and with which decision.
use nullfield.Prelude.{
  ℕ, ◌≡◌, refl, ◌⊎◌, inl, inr, String, Bool, true, false, not, ◌&&◌, is_some, none, some, arith,
  Bool-cases,
}
use nullfield.Api.{Rule, Action, allow, deny, hold, scope, other}
use nullfield.Policy.Engine.{Request, Decision}
use nullfield.Policy.Match.{matches_when}
use nullfield.Policy.Match.Meaning.{
  MethodMatches, ToolMatches, matches_method_iff, matches_tool_name_iff,
}
use nullfield.Policy.Guards.{evaluate_identity_guards, evaluate_delegation_guards}
use nullfield.Policy.Guards.Meaning.{evaluate_identity_guards_iff, evaluate_delegation_guards_iff}
use nullfield.Policy.Cel.{Cel}
use nullfield.Policy.Rules.{
  CelMatch, decided, undecided, panic, finish, new_rule_decision, act, expression_error,
  identity_required, after_cel, judge,
}
use nullfield.Policy.Rules.Steps.{
  cel_answer, cel_answer-true, Applies, Identified, Unidentified, FailsExpression,
}

module _ {Ast Program : Type 0} (cel : Cel Ast Program) where
  -- What a decision says: whether it allows, holds and scopes the call, and the class of its reason
  abbrev pub Says : Decision → Bool → Bool → Bool → String → Type 0
  Says d allowed held scoped reason_class =
      (d.allowed ≡ allowed)
      × (d.held ≡ held)
      × (d.scoped ≡ scoped)
      × (d.reason_class ≡ reason_class)

  -- What the decision by each action says; no decision is by an action that is not known.
  abbrev pub Acts : Action → Decision → Type 0
  Acts allow d = Says d true false false "allowed"
  Acts deny d = Says d false false false "policy_denied"
  Acts hold d = Says d false true false "policy_held"
  Acts scope d = Says d true false true "policy_scoped"
  Acts (other _) d = ⊥

  -- Why a rule decides a request, and what it decides: its expression fails, or it misses the identity
  -- that it asks for, and the call is refused; or it applies, and its action is taken.
  abbrev pub Answers : Rule → Request → Decision → Type 0
  Answers rule req d =
      (FailsExpression cel rule req × Says d false false false "expression_error")
      ⊎ (Unidentified cel rule req × Says d false false false "identity_required")
      ⊎ (Applies cel rule req × Identified cel rule req × Acts rule.action d)

  act-Acts :
      (i : ℕ) (rule : Rule) (req : Request) (d : Decision)
      → act i rule req ≡ some d
      → Acts rule.action d
  unfolding act new_rule_decision
  act-Acts i rule req d e = go rule.action refl
    where
      go : (a : Action) → rule.action ≡ a → Acts a d
      go allow p = (ground arith, ground arith, ground arith, ground arith)
      go deny p = (ground arith, ground arith, ground arith, ground arith)
      go hold p = (ground arith, ground arith, ground arith, ground arith)
      go scope p = (ground arith, ground arith, ground arith, ground arith)
      go (other s) p = ground arith

  after_cel_cases :
      (i : ℕ) (rule : Rule) (req : Request) (d : Decision)
      → after_cel i rule req ≡ finish d
      → ((rule.require_identity ≡ true)
          × (req.identity ≡ none)
          × Says d false false false "identity_required")
        ⊎ (Identified cel rule req
            × (evaluate_identity_guards rule req).0 ≡ true
            × (evaluate_delegation_guards rule req).0 ≡ true
            × (act i rule req ≡ some d))
  unfolding after_cel identity_required new_rule_decision
  after_cel_cases i rule req d e =
      elim (Bool-cases (rule.require_identity && not (is_some req.identity))) [
        | inl missing ↦
            inl
              (ground arith, ground arith, (ground arith, ground arith, ground arith, ground arith))
        | inr known ↦ inr (λ r n. ground arith, ground arith, ground arith, ground arith)
      ]

  judge_matches :
      (answer : CelMatch) (i : ℕ) (rule : Rule) (req : Request) (d : Decision)
      → judge answer i rule req ≡ finish d
      → MethodMatches rule req × ToolMatches rule req × (matches_when rule req ≡ true)
  unfolding judge
  judge_matches answer i rule req d e = (
    (matches_method_iff rule req).0 (ground arith),
    (matches_tool_name_iff rule req).0 (ground arith),
    ground arith,
  )

  judge_answer :
      (answer : CelMatch) (i : ℕ) (rule : Rule) (req : Request) (d : Decision)
      → judge answer i rule req ≡ finish d
      → ((message : String) × (answer ≡ undecided message)
          × Says d false false false "expression_error")
        ⊎ ((answer ≡ decided true) × (after_cel i rule req ≡ finish d))
  unfolding judge expression_error new_rule_decision
  judge_answer panic i rule req d e = absurd (ground arith)
  judge_answer (undecided m) i rule req d e =
      inl (m, refl, (ground arith, ground arith, ground arith, ground arith))
  judge_answer (decided false) i rule req d e = absurd (ground arith)
  judge_answer (decided true) i rule req d e = inr (refl, ground arith)

  -- A round that finishes does so for one of the three reasons.
  pub judge-Answers :
      (i : ℕ) (rule : Rule) (req : Request) (d : Decision)
      → judge (cel_answer cel rule req) i rule req ≡ finish d
      → Answers rule req d
  judge-Answers i rule req d e =
      let (m, t, w) = judge_matches _ i rule req d e in
      elim (judge_answer _ i rule req d e) [
        | inl (message, fails, says) ↦
            inl (record { method = m; tool = t; when = w; message = message; answer = fails }, says)
        | inr (holds, rest) ↦
            let x = cel_answer-true cel rule req holds in
            elim (after_cel_cases i rule req d rest) [
              | inl (required, absent, says) ↦ inr (
                  inl (
                    record {
                      method = m;
                      tool = t;
                      when = w;
                      expression = x;
                      required = required;
                      absent = absent;
                    },
                    says,
                  ))
              | inr (known, g, h, acted) ↦ inr (
                  inr (
                    record {
                      method = m;
                      tool = t;
                      when = w;
                      expression = x;
                      identity = (evaluate_identity_guards_iff rule req).0 g;
                      delegation = (evaluate_delegation_guards_iff rule req).0 h;
                    },
                    known,
                    act-Acts i rule req d acted,
                  ))
            ]
      ]

  -- A decision that allows the call is by a rule that applies with ALLOW or SCOPE.
  pub allowed_of_Answers :
      (rule : Rule) (req : Request) (d : Decision)
      → Answers rule req d
      → d.allowed ≡ true
      → Applies cel rule req × ((rule.action ≡ allow) ⊎ (rule.action ≡ scope))
  allowed_of_Answers rule req d (inl (_, says)) a = absurd (ground (arith, says.0))
  allowed_of_Answers rule req d (inr (inl (_, says))) a = absurd (ground (arith, says.0))
  allowed_of_Answers rule req d (inr (inr (applies, _, acts))) a =
      (applies, go rule.action refl acts)
    where
      go : (x : Action) → rule.action ≡ x → Acts x d → (rule.action ≡ allow) ⊎ (rule.action ≡ scope)
      go allow p h = inl p
      go scope p h = inr p
      go deny p h = absurd (ground arith)
      go hold p h = absurd (ground arith)
      go (other s) p h = absurd h
