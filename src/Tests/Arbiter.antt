-- ===== src/Tests/Arbiter.antt =====
-- Runs of pkg/extauthz/server.go.
use nullfield.Prelude.{
  ne_of_eq-false, ◌≡◌, refl, ◌==◌, String, true, false, List, [], ◌∷◌, Option, none, some, pos, ok,
  err, empty, split_on, strip_prefix,
}
use nullfield.Api.{allow, Rule}
use nullfield.Operations.{Library}
use nullfield.Policy.Cel.{Cel, boolean, compile_cel}
use nullfield.Policy.Match.{matches_method, matches_tool_name, matches_when}
use nullfield.Policy.Guards.{
  evaluate_identity_guards, evaluate_delegation_guards, identity_guards, delegation_guards,
}
use nullfield.Policy.Rules.{
  new_rule_engine, evaluate, evaluate_from, judge, after_cel, act, matches_cel, cel_at,
  compile_rule, run_program, new_rule_decision,
}
use nullfield.Audit.{AuditEvent}
use nullfield.Gates.{
  Gates, Clock, admit, charge, charge_rated, charge_rates, charge_limits, charge_counted,
  charge_budget, charge_velocity, count_session, rule_limits, tool_limits,
}
use nullfield.Identity.Attest.{mesh_attest, attest_parts, without_scheme}
use nullfield.ExtAuthz.{CheckResponse, ok_response, mode_enforce, mode_observe, respond}
use nullfield.ExtAuthz.Translate.{
  Codec, CheckRequest, Translated, translate, translate_attributes, bare, attest_source,
  attest_header, body_truncated, body_of, with_tool, parse_mcp_tools_call, tools_call_of,
}
use nullfield.ExtAuthz.Target.{verify_target}
use nullfield.ExtAuthz.Verify.{verify_operation, verify_run}
use nullfield.ExtAuthz.Decide.{
  Server, Decided, decide, decide_verified, admitted, judged, charged, verify,
}
use nullfield.ExtAuthz.Decide.Admissions.{Allowed}
use nullfield.ExtAuthz.Server.{
  check, check_translated, reported, report, with_run, answer, without_token,
}
use nullfield.ExtAuthz.Server.Total.{check_total}
use nullfield.ExtAuthz.Server.Answers.{LetOn, check-forwarded, check_observes}
use nullfield.ExtAuthz.Server.Events.{decisions, check-decisions}

abbrev text_cel : Cel String String
text_cel = record {
  new_env = ok tt;
  compile = λ e. ok e;
  output_type = λ e. "bool";
  program = λ e limit. ok e;
  eval = λ p v. ok (boolean (p == "true"));
}

abbrev everything : Rule
everything = record {
  id = "";
  action = allow;
  mcp_method = "";
  tool_names = [];
  direction = "";
  destination = "";
  require_identity = false;
  max_calls_per_min = pos 0;
  cel_expression = "";
  inject_cred = none;
  param_rules = [];
  when = none;
  hold = none;
  scope = none;
  budget = none;
  identity = none;
  delegation = none;
  inspection = none;
  audit_labels = [];
  reason = "";
}

abbrev library : Library
library = record {
  split_host_port = λ t. none;
  to_lower = λ t. t;
  path_unescape = λ t. some t;
  quote = λ t. t;
}

abbrev server : String → Server String String
server mode = record {
  mode = mode;
  cel = text_cel;
  engine = new_rule_engine text_cel (everything ∷ []);
  has_audit = true;
  run_tokens = none;
  run_token_optional = false;
  operations = none;
  lookup_addr = none;
  library = library;
}

abbrev codec : Codec
codec = record {
  json = record { unmarshal_request = λ t. err "not JSON"; unmarshal_params = λ t. err "not JSON" };
  atoi = λ t. none;
  trim_space = λ t. t;
}

abbrev gates : Gates
gates = record { registry = none; breaker = none; budgets = none; velocity = none; rates = none }

abbrev request : CheckRequest
request = record {
  http = some (record {
    method = "GET";
    path = "/repos";
    host = "api.example.com";
    headers = empty;
    size = pos 0;
    body = "";
    raw_body = "";
  });
  source_principal = "spiffe://cluster.local/ns/agents/sa/planner";
  destination_address = "";
}

abbrev clock : Clock
clock = record {
  rates_at = 100;
  budgets_at = record { instant = 101; year_day = 1 };
  breaker_at = 102;
  velocity_at = 103;
}

check_total_example :
    (a : Gates × List AuditEvent × CheckResponse) × (check
        (server mode_enforce)
        codec
        gates
        request
        100
        clock
      ≡ some a)
check_total_example =
    check_total (server mode_enforce) (everything ∷ []) refl codec gates request 100 clock

check_observes_example :
    (h : Gates) × (events : List AuditEvent) × (resp : CheckResponse) × (check
        (server mode_observe)
        codec
        gates
        request
        100
        clock
      ≡ some (h, events, resp))
    × LetOn (server mode_observe) resp
check_observes_example =
    check_observes (server mode_observe) (everything ∷ []) refl
      (ne_of_eq-false mode_observe mode_enforce refl) codec gates request 100 clock

abbrev events_of : Option (Gates × List AuditEvent × CheckResponse) → List AuditEvent
events_of none = []
events_of (some (h, events, resp)) = events

abbrev answered : List AuditEvent
answered = events_of (check (server mode_enforce) codec gates request 100 clock)

abbrev let_on : CheckResponse
let_on = record { code = 0; http_response = ok_response [] }

request-check :
    check (server mode_enforce) codec gates request 100 clock ≡ some (gates, answered, let_on)
unfolding check check_translated reported report with_run answer without_token respond translate
    translate_attributes bare attest_source attest_header body_truncated body_of with_tool
    parse_mcp_tools_call tools_call_of decide decide_verified admitted judged charged verify
    verify_target verify_operation verify_run admit charge charge_rated charge_rates charge_limits
    charge_counted charge_budget charge_velocity count_session rule_limits tool_limits evaluate
    evaluate_from judge after_cel act matches_cel cel_at compile_rule run_program new_rule_engine
    compile_cel matches_method matches_tool_name matches_when new_rule_decision
    evaluate_identity_guards evaluate_delegation_guards identity_guards delegation_guards
    mesh_attest attest_parts without_scheme split_on strip_prefix
request-check = refl

check-forwarded_example :
    (t : Translated) × (o : Decided) × (translate codec request ≡ (some t, none))
    × Allowed (server mode_enforce) gates t 100 clock o
    × (o.gates ≡ gates)
    × LetOn (server mode_enforce) let_on
check-forwarded_example =
    check-forwarded (server mode_enforce) codec gates gates request 100 clock answered let_on refl
      request-check refl

check-decisions_example : decisions answered ≡ 1
check-decisions_example =
    check-decisions (server mode_enforce) codec gates gates request 100 clock answered let_on refl
      request-check
