-- ===== src/Policy/Rules/Steps.antt =====
-- When one round of the loop of `Evaluate` of pkg/policy/rules.go passes to the next rule.
use nullfield.Prelude.{
  ℕ, ◌≡◌, refl, ◌⊎◌, inl, inr, ◌≢◌, String, true, false, List, none, some, ◌==◌, pos, arith,
  if◌then◌else◌, get_elem?, get_elem?-map, ok, err, Bool-cases, Result-cases, eq_iff,
}
use nullfield.Api.{Rule, Action, allow, deny, hold, scope, other}
use nullfield.Policy.Engine.{Request, Decision}
use nullfield.Policy.Match.{matches_method, matches_tool_name, matches_when}
use nullfield.Policy.Match.Meaning.{
  MethodMatches, ToolMatches, matches_method_iff, matches_tool_name_iff,
}
use nullfield.Policy.Guards.{evaluate_identity_guards, evaluate_delegation_guards}
use nullfield.Policy.Guards.Meaning.{
  IdentityGuardsHold, DelegationHolds, evaluate_identity_guards_iff, evaluate_delegation_guards_iff,
}
use nullfield.Policy.Cel.{Cel, compile_cel, eval_cel}
use nullfield.Policy.Rules.{
  CelMatch, decided, undecided, panic, next, finish, crash, new_rule_decision, act,
  expression_error, identity_required, compile_rule, new_rule_engine, run_program, cel_at,
  matches_cel, after_cel, judge,
}

module _ {Ast Program : Type 0} (cel : Cel Ast Program) where
  -- What `matchesCEL` comes to for a rule of an engine that `NewRuleEngine` built.
  pub cel_answer : Rule → Request → CelMatch
  cel_answer rule req =
      if rule.cel_expression == ""
      then decided true
      else elim (compile_cel cel rule.cel_expression) [
        | err e ↦ undecided e
        | ok program ↦ run_program cel (some program) req
      ]

  cel_at-compile_rule :
      (rule : Rule) (req : Request)
      → cel_at cel (some rule) (some (compile_rule cel rule).0) (some (compile_rule cel rule).1) req
        ≡ cel_answer rule req
  unfolding cel_at compile_rule cel_answer
  cel_at-compile_rule rule req = ground arith

  -- The engine that `NewRuleEngine` builds answers for the rule at an index from that rule alone.
  pub matches_cel-new_rule_engine :
      (rules : List Rule) (i : ℕ) (rule : Rule) (req : Request)
      → get_elem? rules i ≡ some rule
      → matches_cel cel (new_rule_engine cel rules) i req ≡ cel_answer rule req
  unfolding matches_cel new_rule_engine
  matches_cel-new_rule_engine rules i rule req e =
      rw
        (
          get_elem?-map (λ r. (compile_rule cel r).0) rules i,
          get_elem?-map (λ r. (compile_rule cel r).1) rules i,
          e,
        )
        (cel_at-compile_rule rule req)

  pub cel_answer-ne-panic : (rule : Rule) (req : Request) → cel_answer rule req ≢ panic
  unfolding cel_answer run_program
  cel_answer-ne-panic rule req = ground arith

  -- An expression that is absent, or that compiles and evaluates to true.
  abbrev pub ExpressionHolds : Rule → Request → Type 0
  ExpressionHolds rule req =
      (rule.cel_expression ≡ "")
      ⊎ ((program : Program) × (compile_cel cel rule.cel_expression ≡ ok program)
          × (eval_cel cel program req ≡ ok true))

  pub cel_answer-true :
      (rule : Rule) (req : Request) → cel_answer rule req ≡ decided true → ExpressionHolds rule req
  unfolding cel_answer run_program
  cel_answer-true rule req h = elim (Bool-cases (rule.cel_expression == "")) [
    | inl e ↦ inl ((eq_iff _ _).0 e)
    | inr e ↦ elim (Result-cases (compile_cel cel rule.cel_expression)) [
      | inl (program, c) ↦ inr (program, c, ground arith)
      | inr (message, c) ↦ ground arith
    ]
  ]

  answer_of_ExpressionHolds :
      (rule : Rule) (req : Request) → ExpressionHolds rule req → cel_answer rule req ≡ decided true
  unfolding cel_answer run_program
  answer_of_ExpressionHolds rule req (inl e) = ground (arith, eq_iff rule.cel_expression "")
  answer_of_ExpressionHolds rule req (inr (program, c, v)) = ground arith

  -- The rule's match predicates, its expression and its guards all accept the request.
  pub record Applies (rule : Rule) (req : Request) : Type 0 where
    pub method : MethodMatches rule req
    pub tool : ToolMatches rule req
    pub when : matches_when rule req ≡ true
    pub expression : ExpressionHolds rule req
    pub identity : IdentityGuardsHold rule req
    pub delegation : DelegationHolds rule req

  abbrev pub Identified : Rule → Request → Type 0
  Identified rule req = rule.require_identity ≡ true → req.identity ≢ none

  -- The rule matches, and asks for an identity that the request does not have.
  pub record Unidentified (rule : Rule) (req : Request) : Type 0 where
    pub method : MethodMatches rule req
    pub tool : ToolMatches rule req
    pub when : matches_when rule req ≡ true
    pub expression : ExpressionHolds rule req
    pub required : rule.require_identity ≡ true
    pub absent : req.identity ≡ none

  -- The match predicates hold, but the expression does not compile, or fails on the request.
  pub record FailsExpression (rule : Rule) (req : Request) : Type 0 where
    pub method : MethodMatches rule req
    pub tool : ToolMatches rule req
    pub when : matches_when rule req ≡ true
    pub message : String
    pub answer : cel_answer rule req ≡ undecided message

  judge_skips :
      (i : ℕ) (rule : Rule) (req : Request)
      → matches_method rule req ≡ true
      → matches_tool_name rule req ≡ true
      → matches_when rule req ≡ true
      → (evaluate_identity_guards rule req).0 ≡ true
      → (evaluate_delegation_guards rule req).0 ≡ true
      → judge (decided true) i rule req ≡ next
      → (s : String) × (rule.action ≡ other s)
  unfolding judge after_cel act
  judge_skips i rule req m t w g h e = go rule.action refl
    where
      go : (a : Action) → rule.action ≡ a → (s : String) × (rule.action ≡ other s)
      go allow p = ground arith
      go deny p = ground arith
      go hold p = ground arith
      go scope p = ground arith
      go (other s) p = (s, p)

  -- A round that passes an applicable rule over: its action is none of the four.
  pub judge_next :
      (i : ℕ) (rule : Rule) (req : Request)
      → judge (cel_answer rule req) i rule req ≡ next
      → Applies rule req
      → (s : String) × (rule.action ≡ other s)
  judge_next i rule req e a =
      judge_skips i rule req ((matches_method_iff rule req).1 a.method)
        ((matches_tool_name_iff rule req).1 a.tool) a.when
        ((evaluate_identity_guards_iff rule req).1 a.identity)
        ((evaluate_delegation_guards_iff rule req).1 a.delegation)
        (rw (answer_of_ExpressionHolds rule req a.expression) at e)

  decided_of_next :
      (answer : CelMatch) (i : ℕ) (rule : Rule) (req : Request) (message : String)
      → judge answer i rule req ≡ next
      → matches_method rule req ≡ true
      → matches_tool_name rule req ≡ true
      → matches_when rule req ≡ true
      → answer ≢ undecided message
  unfolding judge
  decided_of_next answer i rule req message e m t w u = ground arith

  -- A round that goes on has decided the rule's expression.
  pub judge_next_decided :
      (i : ℕ) (rule : Rule) (req : Request)
      → judge (cel_answer rule req) i rule req ≡ next
      → ¬ FailsExpression rule req
  judge_next_decided i rule req e f =
      decided_of_next _ i rule req f.message e ((matches_method_iff rule req).1 f.method)
        ((matches_tool_name_iff rule req).1 f.tool) f.when f.answer

  identified_of_next :
      (i : ℕ) (rule : Rule) (req : Request)
      → judge (decided true) i rule req ≡ next
      → matches_method rule req ≡ true
      → matches_tool_name rule req ≡ true
      → matches_when rule req ≡ true
      → rule.require_identity ≡ true
      → req.identity ≢ none
  unfolding judge after_cel
  identified_of_next i rule req e m t w r n = ground arith

  -- A round that goes on has the identity that the rule asks for, if its match predicates hold.
  pub judge_next_identified :
      (i : ℕ) (rule : Rule) (req : Request)
      → judge (cel_answer rule req) i rule req ≡ next
      → ¬ Unidentified rule req
  judge_next_identified i rule req e u =
      identified_of_next i rule req (rw (answer_of_ExpressionHolds rule req u.expression) at e)
        ((matches_method_iff rule req).1 u.method) ((matches_tool_name_iff rule req).1 u.tool)
        u.when u.required u.absent

  pub not-FailsExpression_of_Applies :
      (rule : Rule) (req : Request) → Applies rule req → ¬ FailsExpression rule req
  not-FailsExpression_of_Applies rule req a f =
      cc (answer_of_ExpressionHolds rule req a.expression, f.answer)

-- Every decision that a round finishes with names the rule, and neither holds nor scopes a call
-- against its verdict: what is held is not allowed, and what is scoped is.
pub record Names (i : ℕ) (rule : Rule) (d : Decision) : Type 0 where
  pub index : d.rule_index ≡ pos i
  pub matched : d.matched_rule ≡ some rule
  pub id : d.rule_id ≡ rule.id
  pub held : d.held ≡ true → d.allowed ≡ false
  pub scoped : d.scoped ≡ true → d.allowed ≡ true

act-Names :
    (i : ℕ) (rule : Rule) (req : Request) (d : Decision) → act i rule req ≡ some d → Names i rule d
unfolding act new_rule_decision
act-Names i rule req d e = ground arith

pub judge-Names :
    (answer : CelMatch) (i : ℕ) (rule : Rule) (req : Request) (d : Decision)
    → judge answer i rule req ≡ finish d
    → Names i rule d
unfolding judge after_cel expression_error identity_required new_rule_decision
judge-Names answer i rule req d e = ground (arith, act-Names i rule req d)

pub judge-eq-crash :
    (answer : CelMatch) (i : ℕ) (rule : Rule) (req : Request)
    → judge answer i rule req ≡ crash
    → answer ≡ panic
unfolding judge after_cel
judge-eq-crash answer i rule req e = ground arith
