-- ===== src/Policy/Rules/Tests.antt =====
-- Runs of the engine of pkg/policy/rules.go.
use nullfield.Prelude.{
  ◌≢◌, ap, equal_fold, ◌≡◌, refl, inl, inr, ◌==◌, if◌then◌else◌, String, Bool, true, false, List,
  [], ◌∷◌, none, some, pos, ok, err, arith,
}
use nullfield.Api.{Action, allow, deny, hold, Rule}
use nullfield.Policy.Engine.{Request, Decision}
use nullfield.Policy.Cel.{Cel, boolean, compile_cel, eval_cel}
use mathlib.Core.Bool.{false≢true}
use nullfield.Policy.Match.Meaning.{ToolMatches}
use nullfield.ExtAuthz.{counterfactual_for}
use nullfield.ExtAuthz.Held.{counterfactual_for-held}
use nullfield.Policy.Match.{matches_method, matches_tool_name, matches_when}
use nullfield.Policy.Guards.{
  evaluate_identity_guards, evaluate_delegation_guards, identity_guards, delegation_guards,
}
use nullfield.Policy.Rules.{
  new_rule_engine, evaluate, evaluate_from, judge, after_cel, act, matches_cel, cel_at,
  compile_rule, run_program, new_rule_decision,
}
use nullfield.Policy.Rules.Verdicts.{
  Verdict, evaluate-Verdict, evaluate_blocked, Blocks, Unpermitting,
}
use nullfield.Policy.Rules.Consistent.{IsConsistent, evaluate-IsConsistent}

-- Expressions that are texts: "true", and "broken", which fails.
abbrev text_cel : Cel String String
text_cel = record {
  new_env = ok tt;
  compile = λ e. ok e;
  output_type = λ e. "bool";
  program = λ e limit. ok e;
  eval = λ p v. if p == "broken" then err "no such key" else ok (boolean (p == "true"));
}

abbrev rule_of : Action → List String → String → Rule
rule_of action tools expression = record {
  id = "";
  action = action;
  mcp_method = "";
  tool_names = tools;
  direction = "";
  destination = "";
  require_identity = false;
  max_calls_per_min = pos 0;
  cel_expression = expression;
  inject_cred = none;
  param_rules = [];
  when = none;
  hold = none;
  scope = none;
  budget = none;
  identity = none;
  delegation = none;
  inspection = none;
  audit_labels = [];
  reason = "";
}

abbrev call : Request
call = record {
  method = "tools/call";
  tool_name = "Delete_Repo";
  arguments = none;
  identity = none;
  transport = "http";
  target = "";
  operation = "";
  action = "";
  params = [];
  run = none;
}

abbrev other_tool : Rule
other_tool = rule_of allow ("list_repos" ∷ []) ""

abbrev held_tool : Rule
held_tool = rule_of hold ("delete_repo" ∷ []) "true"

abbrev broken : Rule
broken = rule_of deny ("*" ∷ []) "broken"

abbrev everything : Rule
everything = rule_of allow [] ""

abbrev rules : List Rule
rules = other_tool ∷ held_tool ∷ everything ∷ []

evaluate-Verdict_example :
    (d : Decision) × (evaluate text_cel (new_rule_engine text_cel rules) call ≡ some d)
    × Verdict text_cel call 0 rules d
evaluate-Verdict_example = evaluate-Verdict text_cel call rules

abbrev held_decision : Decision
held_decision = record {
  allowed = false;
  held = true;
  scoped = false;
  reason = "held for approval: Delete_Repo";
  gate = "policy";
  reason_class = "policy_held";
  rule_index = pos 1;
  rule_id = "";
  labels = none;
  matched_rule = some held_tool;
  counterfactual = "";
}

held_run : evaluate text_cel (new_rule_engine text_cel rules) call ≡ some held_decision
unfolding evaluate evaluate_from judge after_cel act matches_cel cel_at compile_rule run_program
    new_rule_engine compile_cel eval_cel matches_method matches_tool_name equal_fold matches_when
    new_rule_decision evaluate_identity_guards evaluate_delegation_guards identity_guards
    delegation_guards
held_run = refl

held_tool-Blocks : Blocks text_cel call held_tool
unfolding compile_cel eval_cel matches_when equal_fold
held_tool-Blocks = inl (
  record {
    method = inl refl;
    tool = inr (inl (inr refl));
    when = refl;
    expression = inr ("true", refl, refl);
    identity = λ g e. absurd (ground arith);
    delegation = λ g limit depth claims e positive known c. absurd (ground arith);
  },
  inr refl,
)

other_tool-Unpermitting : Unpermitting text_cel call other_tool
unfolding equal_fold
other_tool-Unpermitting a = absurd (unlisted a.tool)
  where
    star : String → Bool
    star s = s == "*"

    unlisted : ToolMatches other_tool call → ⊥
    unlisted (inl e) = ground arith
    unlisted (inr (inl (inl e))) = false≢true (ap star e)
    unlisted (inr (inl (inr e))) = false≢true e
    unlisted (inr (inr e)) = e

evaluate_blocked_example : held_decision.allowed ≡ false
evaluate_blocked_example =
    evaluate_blocked text_cel call (other_tool ∷ []) held_tool (everything ∷ []) held_decision
      held_tool-Blocks (other_tool-Unpermitting, tt) held_run

evaluate-IsConsistent_example : IsConsistent held_decision
evaluate-IsConsistent_example =
    evaluate-IsConsistent text_cel (new_rule_engine text_cel rules) call held_decision held_run

counterfactual_for-held_example : counterfactual_for "observe" held_decision ≢ "HOLD"
counterfactual_for-held_example =
    counterfactual_for-held text_cel (new_rule_engine text_cel rules) call "observe" held_decision
      held_run
