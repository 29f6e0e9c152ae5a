-- ===== src/Tests/Proxying.antt =====
-- Runs of pkg/proxy/handler.go, pkg/scope/modifier.go and pkg/inspection/inspector.go.
use nullfield.Prelude.{
  ◌≡◌, refl, ◌==◌, ℕ, zero, suc, String, Bool, true, false, List, [], ◌∷◌, Option, none, some, pos,
  ok, if◌then◌else◌, arith, contains, length, ◌↔◌,
}
use nullfield.Value.{Fields, end, field, text, null}
use nullfield.Api.{allow, Rule, ScopeRequestConfig}
use nullfield.Identity.{Identity}
use nullfield.Mcp.{JsonRpcRequest, ToolsCallParams, parse_tools_call, check_params}
use nullfield.Policy.Cel.{Cel, boolean, compile_cel}
use nullfield.Policy.Engine.{Decision}
use nullfield.Policy.Match.{matches_method, matches_tool_name, matches_when}
use nullfield.Policy.Guards.{
  evaluate_identity_guards, evaluate_delegation_guards, identity_guards, delegation_guards,
}
use nullfield.Policy.Rules
use nullfield.Policy.Rules.{
  RuleEngine, new_rule_engine, evaluate, evaluate_from, after_cel, act, matches_cel, cel_at,
  compile_rule, run_program, new_rule_decision,
}
use nullfield.Gates.{
  Gates, Clock, admit, charge, charge_rated, charge_rates, charge_limits, charge_counted,
  charge_budget, charge_velocity, count_session, rule_limits, tool_limits,
}
use nullfield.Hold.{Resolution}
use nullfield.Regexp.{Regexp}
use nullfield.Inspection.{Inspector, inspect, redact, has_sensitive_content}
use nullfield.Inspection.Agreement.{FindsMatches, inspect_lem}
use nullfield.Proxy.Outcome.{HttpRequest, Handler, State, Journey}
use nullfield.Proxy.Calls
use nullfield.Proxy.Calls.{
  deliver, needs_inspection, warn, charge_call, scope_call, resume, pass, judge, decided,
  handle_tools_call,
}
use nullfield.Proxy.Calls.Passed.{is_sent, Charges, resume-sent}
use nullfield.Proxy.Calls.Trail.{allowed_calls, handle_tools_call-allowed_calls}
use nullfield.Proxy.Handler.{
  serve_http, serve_request, serve_checked, serve_identified, check_caller,
}
use nullfield.Proxy.Handler.Forwarding.{Served, serve_http-sent}

abbrev text_cel : Cel String String
text_cel = record {
  new_env = ok tt;
  compile = λ e. ok e;
  output_type = λ e. "bool";
  program = λ e limit. ok e;
  eval = λ p v. ok (boolean (p == "true"));
}

abbrev everything : Rule
everything = record {
  id = "";
  action = allow;
  mcp_method = "";
  tool_names = [];
  direction = "";
  destination = "";
  require_identity = false;
  max_calls_per_min = pos 0;
  cel_expression = "";
  inject_cred = none;
  param_rules = [];
  when = none;
  hold = none;
  scope = none;
  budget = none;
  identity = none;
  delegation = none;
  inspection = none;
  audit_labels = [];
  reason = "";
}

abbrev gates : Gates
gates = record { registry = none; breaker = none; budgets = none; velocity = none; rates = none }

abbrev clock : Clock
clock = record {
  rates_at = 100;
  budgets_at = record { instant = 101; year_day = 1 };
  breaker_at = 102;
  velocity_at = 103;
}

abbrev found : String → Option ℕ → Bool → List String
found e limit false = []
found e none true = e ∷ []
found e (some zero) true = []
found e (some (suc n)) true = e ∷ []

found_limited : (e : String) (n : ℕ) (b : Bool) → (found e (some (suc n)) b ≡ []) ↔ (b ≡ false)
found_limited e n false = ((λ _. refl), λ _. refl)
found_limited e n true = ((λ h. absurd (ground arith)), λ h. absurd (ground arith))

found_unlimited : (e : String) (b : Bool) → (length (found e none b) ≡ 0) ↔ (b ≡ false)
found_unlimited e false = ((λ _. refl), λ _. refl)
found_unlimited e true = ((λ h. absurd (omega (arith, h))), λ h. absurd (ground arith))

-- An expression is the text that it finds.
abbrev text_regexp : Regexp String
text_regexp = record {
  compile = λ e. some e;
  must_compile = λ e. e;
  find_all = λ e s limit. found e limit (contains e s);
  is_match = λ e s. contains e s;
  replace_all = λ e s r. r;
}

text_regexp-FindsMatches : FindsMatches text_regexp
text_regexp-FindsMatches = record {
  limited = λ r s n. found_limited r n (contains r s);
  unlimited = λ r s. found_unlimited r (contains r s);
}

abbrev inspector : Inspector String
inspector = record {
  rules = record { category = "pii"; severity = "HIGH"; pattern = "ssn"; label = "ssn" } ∷ [];
}

inspect_lem_example :
    ((inspect text_regexp inspector "the ssn" ≡ [])
      ↔ (has_sensitive_content text_regexp inspector "the ssn" ≡ false))
    × (((redact text_regexp inspector "the ssn" "").1 ≡ 0)
        ↔ (has_sensitive_content text_regexp inspector "the ssn" ≡ false))
    × (has_sensitive_content text_regexp inspector "the ssn" ≡ false
        → (redact text_regexp inspector "the ssn" "").0 ≡ "the ssn")
inspect_lem_example = inspect_lem text_regexp text_regexp-FindsMatches inspector "the ssn" ""

abbrev arguments : Fields
arguments =
    field "path" (text "/etc")
      (field "token" (text "x") (field "url" (text "https://evil.example") end))

abbrev request_cfg : ScopeRequestConfig
request_cfg = record {
  strip_arguments = "token" ∷ [];
  inject_arguments = field "path" (text "/srv") end;
  inject_credentials = [];
  block_redirects = true;
}

abbrev alice : Identity
alice = record {
  subject = "alice";
  issuer = "";
  session_id = "s1";
  scopes = [];
  raw = "";
  kind = "agent";
  provider = "";
  groups = [];
  claims = none;
  expires_at = pos 0;
  jti = "";
}

abbrev request : JsonRpcRequest
request = record { json_rpc = "2.0"; id = null; method = "tools/call"; params = "send" }

abbrev send : ToolsCallParams
send = record { name = "send"; arguments = none }

abbrev handler : Handler String String String
handler = record {
  cel = text_cel;
  engine = new_rule_engine text_cel (everything ∷ []);
  verify = λ r. ok alice;
  credentials = none;
  inspector = none;
  re = text_regexp;
  json = record { unmarshal_request = λ t. ok request; unmarshal_params = λ t. ok send };
  json_map = record { unmarshal = λ t. ok end; marshal = λ fs. ok "" };
  to_lower = λ t. t;
  quote = λ t. t;
  parse_duration = λ t. none;
  show_duration = λ d. "";
  marshal_response = λ r. "";
}

abbrev state : State
state = record { gates = gates; integrity = none; holds = none }

abbrev http_request : HttpRequest
http_request = record { body = ok "{}"; path = "/mcp"; header = λ h. "" }

http_request-is_sent : is_sent (serve_http handler state http_request "hold-1" 100 clock).2 ≡ true
unfolding is_sent serve_http serve_request serve_checked serve_identified check_caller
    handle_tools_call Calls.admitted decided judge pass scope_call charge_call Calls.charged warn
    deliver needs_inspection parse_tools_call check_params admit charge charge_rated charge_rates
    charge_limits charge_counted charge_budget charge_velocity count_session rule_limits tool_limits
    evaluate evaluate_from Rules.judge after_cel act matches_cel cel_at compile_rule run_program
    new_rule_engine compile_cel matches_method matches_tool_name matches_when new_rule_decision
    evaluate_identity_guards evaluate_delegation_guards identity_guards delegation_guards
http_request-is_sent = refl

serve_http-sent_example : Served handler state http_request request 100 clock
serve_http-sent_example =
    serve_http-sent handler state http_request "{}" request "hold-1" 100 clock refl refl refl
      http_request-is_sent

abbrev decision : Decision
decision = record {
  allowed = false;
  held = true;
  scoped = false;
  reason = "held";
  gate = "policy";
  reason_class = "policy_held";
  rule_index = pos 0;
  rule_id = "";
  labels = none;
  matched_rule = none;
  counterfactual = "";
}

abbrev journey : Journey
journey = record {
  request = request;
  path = "/mcp";
  tool = send;
  body = "{}";
  caller = alice;
  decision = decision;
}

abbrev approval : Resolution
approval = record { is_approved = true; by = "bob" }

journey-is_sent : is_sent (resume handler state "hold-1" journey approval clock).2 ≡ true
unfolding is_sent resume scope_call charge_call Calls.charged warn deliver needs_inspection charge
    charge_rated charge_rates charge_limits charge_counted charge_budget charge_velocity
    count_session rule_limits tool_limits
journey-is_sent = refl

resume-sent_example : (approval.is_approved ≡ true) × Charges handler state journey clock
resume-sent_example = resume-sent handler state "hold-1" journey approval clock journey-is_sent

handle_tools_call-allowed_calls_example :
    (allowed_calls (handle_tools_call handler state request "/mcp" "{}" alice "hold-1" 100 clock).1
      ≡ (if is_sent (handle_tools_call handler state request "/mcp" "{}" alice "hold-1" 100 clock).2
          then 1
          else 0))
    × (allowed_calls (resume handler state "hold-1" journey approval clock).1
        ≡ (if is_sent (resume handler state "hold-1" journey approval clock).2 then 1 else 0))
handle_tools_call-allowed_calls_example =
    handle_tools_call-allowed_calls handler state request "/mcp" "{}" alice "hold-1" 100 clock
      journey approval
