-- ===== src/Policy/Rules.antt =====
-- pkg/policy/rules.go: the rule engine. `none` for a decision stands for the panic of running a
-- program that is nil, or of reading one of the engine's slices past its end.
pub mod Steps
pub mod Answers
pub mod Verdicts
pub mod Consistent
mod Tests
use nullfield.Prelude.{
  ℕ, suc, String, Bool, true, false, not, ◌&&◌, List, [], ◌∷◌, map, Option, none, some, ◌==◌, pos,
  negsuc, if◌then◌else◌, is_some, get_elem?, ◌+++◌, ok, err,
}
use nullfield.Api.{Rule, allow, deny, hold, scope, other}
use nullfield.Policy.Engine.{Request, Decision}
use nullfield.Policy.Match.{matches_method, matches_tool_name, matches_when}
use nullfield.Policy.Guards.{evaluate_identity_guards, evaluate_delegation_guards}
use nullfield.Policy.Cel.{Cel, compile_cel, eval_cel}

abbrev pub gate_policy : String
gate_policy = "policy"

abbrev pub reason_class_allowed : String
reason_class_allowed = "allowed"

abbrev pub reason_class_policy_denied : String
reason_class_policy_denied = "policy_denied"

abbrev pub reason_class_policy_held : String
reason_class_policy_held = "policy_held"

abbrev pub reason_class_policy_scoped : String
reason_class_policy_scoped = "policy_scoped"

abbrev pub reason_class_default_deny : String
reason_class_default_deny = "default_deny"

abbrev pub reason_class_identity_required : String
reason_class_identity_required = "identity_required"

abbrev pub reason_class_expression_error : String
reason_class_expression_error = "expression_error"

-- `RuleEngine`: `programs` and `cel_errs` run along `rules`, with `none` for nil.
pub record RuleEngine (Program : Type 0) : Type 0 where
  pub rules : List Rule
  pub programs : List (Option Program)
  pub cel_errs : List (Option String)

-- `nil` for no labels, and a copy otherwise.
abbrev pub clone_labels : List (String × String) → Option (List (String × String))
clone_labels [] = none
clone_labels (l ∷ labels) = some (l ∷ labels)

unfoldable pub new_rule_decision : Bool → Bool → Bool → String → String → ℕ → Rule → Decision
new_rule_decision allowed held scoped reason reason_class rule_index rule = record {
  allowed = allowed;
  held = held;
  scoped = scoped;
  reason = reason;
  gate = gate_policy;
  reason_class = reason_class;
  rule_index = pos rule_index;
  rule_id = rule.id;
  labels = clone_labels rule.audit_labels;
  matched_rule = some rule;
  counterfactual = "";
}

unfoldable pub default_deny : Decision
default_deny = record {
  allowed = false;
  held = false;
  scoped = false;
  reason = "no matching rule (default deny)";
  gate = gate_policy;
  reason_class = reason_class_default_deny;
  rule_index = negsuc 0;
  rule_id = "";
  labels = none;
  matched_rule = none;
  counterfactual = "";
}

-- The two refusals of `Evaluate` that a matching rule makes before its action.
pub expression_error : ℕ → Rule → String → Decision
expression_error i rule e =
    new_rule_decision false false false ("celExpression could not be evaluated: " +++ e)
      reason_class_expression_error i rule

pub identity_required : ℕ → Rule → Decision
identity_required i rule =
    new_rule_decision false false false "identity required but not present"
      reason_class_identity_required i rule

abbrev pub reason_or : String → String → String
reason_or reason fallback = if reason == "" then fallback else reason

-- The `switch` of `Evaluate`; `none` is an action that it does not know, and the loop goes on.
unfoldable pub act : ℕ → Rule → Request → Option Decision
act i rule req = elim rule.action [
  | allow ↦ some (new_rule_decision true false false "" reason_class_allowed i rule)
  | deny ↦ some (
      new_rule_decision false false false
        (reason_or rule.reason ("denied by rule for tool: " +++ req.tool_name))
        reason_class_policy_denied i rule)
  | hold ↦ some (
      new_rule_decision false true false
        (reason_or rule.reason ("held for approval: " +++ req.tool_name)) reason_class_policy_held i
        rule)
  | scope ↦ some (new_rule_decision true false true "" reason_class_policy_scoped i rule)
  | other _ ↦ none
]

-- What `matchesCEL` answers.
pub data CelMatch : Type 0 where
  decided : Bool → CelMatch
  undecided : String → CelMatch
  panic : CelMatch

-- What the body of the loop does with one rule.
pub data Step : Type 0 where
  next : Step
  finish : Decision → Step
  crash : Step

module _ {Ast Program : Type 0} (cel : Cel Ast Program) where
  -- `e.programs[i], e.celErrs[i]` for one rule.
  unfoldable pub compile_rule : Rule → Option Program × Option String
  compile_rule r =
      if r.cel_expression == "" then (none, none) else elim (compile_cel cel r.cel_expression) [
        | ok program ↦ (some program, none)
        | err e ↦ (none, some e)
      ]

  unfoldable pub new_rule_engine : List Rule → RuleEngine Program
  new_rule_engine rules = record {
    rules = rules;
    programs = map (λ r. (compile_rule r).0) rules;
    cel_errs = map (λ r. (compile_rule r).1) rules;
  }

  -- `evalCEL`, of a program that may be nil.
  unfoldable pub run_program : Option Program → Request → CelMatch
  run_program none req = panic
  run_program (some program) req = elim (eval_cel cel program req) [
    | ok b ↦ decided b
    | err e ↦ undecided e
  ]

  -- `matchesCEL` on what it reads at index `i` of the three slices.
  unfoldable pub cel_at :
      Option Rule → Option (Option Program) → Option (Option String) → Request → CelMatch
  cel_at none program message req = panic
  cel_at (some rule) program message req =
      if rule.cel_expression == "" then decided true else elim message [
        | none ↦ panic
        | some (some e) ↦ undecided e
        | some none ↦ elim program [ none ↦ panic | some p ↦ run_program p req ]
      ]

  unfoldable pub matches_cel : RuleEngine Program → ℕ → Request → CelMatch
  matches_cel e i req =
      cel_at (get_elem? e.rules i) (get_elem? e.programs i) (get_elem? e.cel_errs i) req

-- The body of the loop of `Evaluate` from `RequireIdentity` on.
unfoldable pub after_cel : ℕ → Rule → Request → Step
after_cel i rule req =
    if rule.require_identity && not (is_some req.identity)
    then finish (identity_required i rule)
    else if not (evaluate_identity_guards rule req).0
    then next
    else if not (evaluate_delegation_guards rule req).0
    then next
    else elim (act i rule req) [ none ↦ next | some d ↦ finish d ]

-- The body of the loop of `Evaluate`, given what `matchesCEL` answers.
unfoldable pub judge : CelMatch → ℕ → Rule → Request → Step
judge answer i rule req =
    if not (matches_method rule req)
    then next
    else if not (matches_tool_name rule req)
    then next
    else if not (matches_when rule req)
    then next
    else elim answer [
      | panic ↦ crash
      | undecided e ↦ finish (expression_error i rule e)
      | decided false ↦ next
      | decided true ↦ after_cel i rule req
    ]

module _ {Ast Program : Type 0} (cel : Cel Ast Program) (e : RuleEngine Program)
    (req : Request) where
  unfoldable pub evaluate_from : ℕ → List Rule → Option Decision
  evaluate_from i [] = some default_deny
  evaluate_from i (rule ∷ rules) = elim (judge (matches_cel cel e i req) i rule req) [
    | crash ↦ none
    | finish d ↦ some d
    | next ↦ evaluate_from (suc i) rules
  ]

  unfoldable pub evaluate : Option Decision
  evaluate = evaluate_from 0 e.rules
