-- ===== src/Policy/Rules/Verdicts.antt =====
-- What `Evaluate` of pkg/policy/rules.go returns for an engine that `NewRuleEngine` built.
use native.Mathlib.Nat.{add-zero, zero-add}
use mathlib.Core.Path.{subst}
use mathlib.Core.Option.{some-injective}
use nullfield.Prelude.{
  ℕ, suc, ◌+◌, ◌≡◌, refl, sym, ◌∙◌, ap, String, ◌⊎◌, inl, inr, ◌≢◌, true, false, List, [], ◌∷◌,
  ◌++◌, some, arith, get_elem?, length, All, Bool-cases,
}
use nullfield.Api.{Rule, allow, deny, hold, scope, other}
use nullfield.Policy.Engine.{Request, Decision}
use nullfield.Policy.Cel.{Cel}
use nullfield.Policy.Rules.{
  RuleEngine, Step, next, finish, crash, judge, default_deny, new_rule_engine, matches_cel,
  evaluate_from, evaluate,
}
use nullfield.Policy.Rules.Answers.{Acts, Answers, judge-Answers, allowed_of_Answers}
use nullfield.Policy.Rules.Steps.{
  cel_answer, matches_cel-new_rule_engine, cel_answer-ne-panic, Applies, Unidentified,
  judge_next_identified, judge_next, judge_next_decided, FailsExpression,
  not-FailsExpression_of_Applies, Names, judge-Names, judge-eq-crash,
}

Step-cases : (s : Step) → (s ≡ next) ⊎ ((d : Decision) × (s ≡ finish d)) ⊎ (s ≡ crash)
Step-cases next = inl refl
Step-cases (finish d) = inr (inl (d, refl))
Step-cases crash = inr (inr refl)

cons-head : {x y : Rule} {xs ys : List Rule} → x ∷ xs ≡ y ∷ ys → x ≡ y
cons-head e = cc

cons-tail : {x y : Rule} {xs ys : List Rule} → x ∷ xs ≡ y ∷ ys → xs ≡ ys
cons-tail e = cc

module _ {Ast Program : Type 0} (cel : Cel Ast Program) (req : Request) where
  -- The rule does not apply to the request, or its action is none of the four; its expression did not
  -- fail; and it does not miss an identity that it asks for.
  pub record PassedOver (rule : Rule) : Type 0 where
    pub idle : Applies cel rule req → (s : String) × (rule.action ≡ other s)
    pub decided : ¬ FailsExpression cel rule req
    pub identified : ¬ Unidentified cel rule req

  not-PassedOver_of_Answers :
      (rule : Rule) (d : Decision) → Answers cel rule req d → ¬ PassedOver rule
  not-PassedOver_of_Answers rule d (inl (fails, _)) p = p.decided fails
  not-PassedOver_of_Answers rule d (inr (inl (missing, _))) p = p.identified missing
  not-PassedOver_of_Answers rule d (inr (inr (applies, _, acts))) p =
      let (s, e) = p.idle applies in subst (λ a. Acts cel a d) e acts

  -- The decision of the first rule that is not passed over, at index `i` onwards, with the reason why
  -- that rule decides.
  pub record Decides (i : ℕ) (rules : List Rule) (d : Decision) : Type 0 where
    pub before : List Rule
    pub rule : Rule
    pub after : List Rule
    pub split : rules ≡ before ++ rule ∷ after
    pub passed : All PassedOver before
    pub names : Names (i + length before) rule d
    pub not_passed : ¬ PassedOver rule
    pub answers : Answers cel rule req d

  abbrev pub Verdict : ℕ → List Rule → Decision → Type 0
  Verdict i rules d = ((d ≡ default_deny) × All PassedOver rules) ⊎ Decides i rules d

  Verdict-cons :
      (i : ℕ) (rule : Rule) (rules : List Rule) (d : Decision)
      → PassedOver rule
      → Verdict (suc i) rules d
      → Verdict i (rule ∷ rules) d
  Verdict-cons i rule rules d p (inl (e, h)) = inl (e, (p, h))
  Verdict-cons i rule rules d p (inr v) = inr (record {
    before = rule ∷ v.before;
    rule = v.rule;
    after = v.after;
    split = ap (◌∷◌ rule) v.split;
    passed = (p, v.passed);
    names = subst (λ n. Names n v.rule d) (omega arith) v.names;
    not_passed = v.not_passed;
    answers = v.answers;
  })

  evaluate_from-next :
      (e : RuleEngine Program) (i : ℕ) (rule : Rule) (rules : List Rule)
      → judge (matches_cel cel e i req) i rule req ≡ next
      → evaluate_from cel e req i (rule ∷ rules) ≡ evaluate_from cel e req (suc i) rules
  unfolding evaluate_from
  evaluate_from-next e i rule rules h = ground arith

  evaluate_from-finish :
      (e : RuleEngine Program) (i : ℕ) (rule : Rule) (rules : List Rule) (d : Decision)
      → judge (matches_cel cel e i req) i rule req ≡ finish d
      → evaluate_from cel e req i (rule ∷ rules) ≡ some d
  unfolding evaluate_from
  evaluate_from-finish e i rule rules d h = ground arith

  Verdict-from :
      (e : RuleEngine Program) (i : ℕ) (rules : List Rule)
      → ((j : ℕ) (r : Rule)
          → get_elem? rules j ≡ some r
          → matches_cel cel e (i + j) req ≡ cel_answer cel r req)
      → (d : Decision) × (evaluate_from cel e req i rules ≡ some d) × Verdict i rules d
  unfolding evaluate_from
  Verdict-from e i [] h = (default_deny, refl, inl (refl, tt))
  Verdict-from e i (rule ∷ rules) h =
      let here : matches_cel cel e i req ≡ cel_answer cel rule req =
        subst (λ n. matches_cel cel e n req ≡ cel_answer cel rule req) (add-zero i)
          (h 0 rule refl) in
      elim (Step-cases (judge (cel_answer cel rule req) i rule req)) [
        | inl e' ↦
            let (d, run, v) = Verdict-from e (suc i) rules (λ j r p.
              subst (λ n. matches_cel cel e n req ≡ cel_answer cel r req) (omega arith)
                (h (suc j) r p)) in
            (
              d,
              evaluate_from-next e i rule rules (rw here e') ∙ run,
              Verdict-cons i rule rules d
                  (record {
                    idle = judge_next cel i rule req e';
                    decided = judge_next_decided cel i rule req e';
                    identified = judge_next_identified cel i rule req e';
                  })
                  v,
            )
        | inr (inl (d, e')) ↦ (
          d,
          evaluate_from-finish e i rule rules d (rw here e'),
          inr (record {
            before = [];
            rule = rule;
            after = rules;
            split = refl;
            passed = tt;
            names = subst (λ n. Names n rule d) (sym (add-zero i)) (judge-Names _ i rule req d e');
            not_passed = not-PassedOver_of_Answers rule d (judge-Answers cel i rule req d e');
            answers = judge-Answers cel i rule req d e';
          }),
        )
        | inr (inr e') ↦ absurd (cel_answer-ne-panic cel rule req (judge-eq-crash _ i rule req e'))
      ]

  -- An engine that `NewRuleEngine` built answers every request, with no panic. A rule is passed over
  -- if it does not apply or its action is none of the four, its expression does not fail, and it does
  -- not match while missing an identity that it requires. The first rule that is not passed over
  -- decides: it refuses the call if it matches and its expression fails, or if it matches and misses
  -- the identity; otherwise it applies, and the call is allowed by ALLOW, refused by DENY, held by
  -- HOLD, and allowed and scoped by SCOPE. If every rule is passed over, the answer is the default deny.
  pub evaluate-Verdict :
      (rules : List Rule)
      → (d : Decision) × (evaluate cel (new_rule_engine cel rules) req ≡ some d) × Verdict 0 rules d
  unfolding evaluate new_rule_engine
  evaluate-Verdict rules =
      Verdict-from (new_rule_engine cel rules) 0 rules
        (λ j r p. rw zero-add (matches_cel-new_rule_engine cel rules j r req p))

-- Two splits of one list meet at the same entry, or one entry lies before the other's split.
split_cases :
    (P Q : Rule → Type 0) (x y : Rule) (us vs xs ys : List Rule)
    → xs ++ x ∷ us ≡ ys ++ y ∷ vs
    → All P xs
    → All Q ys
    → P y ⊎ Q x ⊎ (x ≡ y)
split_cases P Q x y us vs [] [] e h k = inr (inr (cons-head e))
split_cases P Q x y us vs [] (y' ∷ ys) e h k = inr (inl (subst Q (sym (cons-head e)) k.0))
split_cases P Q x y us vs (x' ∷ xs) [] e h k = inl (subst P (cons-head e) h.0)
split_cases P Q x y us vs (x' ∷ xs) (y' ∷ ys) e h k =
    split_cases P Q x y us vs xs ys (cons-tail e) h.1 k.1

module _ {Ast Program : Type 0} (cel : Cel Ast Program) (req : Request) where
  -- Neither ALLOW nor SCOPE, or not for this request.
  abbrev pub Unpermitting : Rule → Type 0
  Unpermitting rule = Applies cel rule req → (rule.action ≢ allow) × (rule.action ≢ scope)

  -- The rule applies with DENY or HOLD, or its expression fails.
  abbrev pub Blocks : Rule → Type 0
  Blocks rule =
      (Applies cel rule req × ((rule.action ≡ deny) ⊎ (rule.action ≡ hold)))
      ⊎ FailsExpression cel rule req

  not-PassedOver_of_Blocks : (rule : Rule) → Blocks rule → ¬ PassedOver cel req rule
  not-PassedOver_of_Blocks rule (inl (a, act)) p = let (s, e) = p.idle a in ground arith
  not-PassedOver_of_Blocks rule (inr f) p = p.decided f

  not-Permits_of_Blocks :
      (rule : Rule)
      → Blocks rule
      → Applies cel rule req
      → ¬ ((rule.action ≡ allow) ⊎ (rule.action ≡ scope))
  not-Permits_of_Blocks rule (inl (_, act)) a p = ground arith
  not-Permits_of_Blocks rule (inr f) a p = not-FailsExpression_of_Applies cel rule req a f

  -- A rule that applies with DENY or HOLD, or whose expression fails, is final: if no rule before
  -- it permits the call, no rule behind it does either.
  pub evaluate_blocked :
      (before : List Rule) (rule : Rule) (after : List Rule) (d : Decision)
      → Blocks rule
      → All Unpermitting before
      → evaluate cel (new_rule_engine cel (before ++ rule ∷ after)) req ≡ some d
      → d.allowed ≡ false
  unfolding default_deny
  evaluate_blocked before rule after d blocks unpermitting e =
      let (d', e', v) = evaluate-Verdict cel req (before ++ rule ∷ after) in
      subst (λ x. x.allowed ≡ false) (some-injective d' d (sym e' ∙ e))
        (refused d' v (Bool-cases d'.allowed))
    where
      refused :
          (d' : Decision)
          → Verdict cel req 0 (before ++ rule ∷ after) d'
          → (d'.allowed ≡ true) ⊎ (d'.allowed ≡ false)
          → d'.allowed ≡ false
      refused d' v (inr no') = no'
      refused d' (inl (default, _)) (inl allowed) = rw default refl
      refused d' (inr v) (inl allowed) =
          let (applies, permits) = allowed_of_Answers cel v.rule req d' v.answers allowed in
          elim (split_cases Unpermitting (PassedOver cel req) rule v.rule after v.after before
            v.before v.split unpermitting v.passed) [
              | inl u ↦ let (not_allow, not_scope) = u applies in ground arith
              | inr (inl p) ↦ absurd (not-PassedOver_of_Blocks rule blocks p)
              | inr (inr same) ↦
                  absurd (not-Permits_of_Blocks v.rule (subst Blocks same blocks) applies permits)
            ]
