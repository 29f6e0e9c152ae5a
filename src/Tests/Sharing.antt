-- ===== src/Tests/Sharing.antt =====
-- Runs of pkg/policy/loader.go and of the stores of pkg/controller.
use nullfield.Controller.Events.{AuditEvent, no_event, new_event_buffer, list_events}
use nullfield.Controller.Events.Recent.{ring, list_events-latest}
use nullfield.Prelude.{
  add64, ◌≡◌, refl, ◌==◌, String, ℕ, List, some, true, false, [], ◌∷◌, none, pos, ok, err, is_some,
  if◌then◌else◌,
}
use nullfield.Prelude.Dict
use nullfield.Api.{allow, Rule}
use nullfield.Api.Spec.{NullfieldPolicySpec}
use nullfield.Policy.Cel.{Cel, boolean}
use nullfield.Policy.Loader.{
  Documents, check_fields, check_expression, check_budget, check_rules, check_integrity,
  check_anomaly, check_run_token, check_identity, validate, parse_decoded, parse_spec,
}
use nullfield.Policy.Loader.Accepted.{Sound, parse_spec-Sound}
use nullfield.Times.{trim}
use nullfield.Budget.{Now}
use nullfield.Controller.Budgets.{
  StoreLimits, BudgetStore, new_budget_store, check_store, check_identity_budget, check_session,
  check_key, record_of, trim_budget, over_limit, record_in, remaining, count_in,
}
use nullfield.Controller.Budgets.Remaining.{Counts, check_store-Counts}
use nullfield.Controller.Holds.{
  pending, approved, denied, Hold, HoldStore, new_hold_store, create, resolve, run_timeout,
}
use nullfield.Controller.Holds.Resolution.{resolve-closed}

abbrev text_cel : Cel String String
text_cel = record {
  new_env = ok tt;
  compile = λ e. ok e;
  output_type = λ e. "bool";
  program = λ e limit. ok e;
  eval = λ p v. ok (boolean (p == "true"));
}

abbrev everything : Rule
everything = record {
  id = "";
  action = allow;
  mcp_method = "";
  tool_names = [];
  direction = "";
  destination = "";
  require_identity = false;
  max_calls_per_min = pos 0;
  cel_expression = "";
  inject_cred = none;
  param_rules = [];
  when = none;
  hold = none;
  scope = none;
  budget = none;
  identity = none;
  delegation = none;
  inspection = none;
  audit_labels = [];
  reason = "";
}

abbrev policy : NullfieldPolicySpec
policy = record {
  match_labels = [];
  identity = none;
  run_token = none;
  integrity = none;
  anomaly = none;
  rules = everything ∷ [];
  circuit_breaker = record {
    max_tool_calls_per_session = pos 0;
    max_session_duration = pos 0;
    on_trip = "DENY";
  };
  audit = record { emit_to = ""; log_level = "FULL" };
}

abbrev documents : Documents
documents = record {
  decode = λ t. if t == "policy" then ok policy else err "not a policy";
  parse_duration = λ t. err "no duration";
  quote = λ t. t;
}

policy-parse_spec : parse_spec text_cel documents "policy" ≡ ok policy
unfolding parse_spec parse_decoded validate check_rules check_fields check_expression check_budget
    check_integrity check_anomaly check_run_token check_identity
policy-parse_spec = refl

parse_spec-Sound_example : Sound text_cel documents policy
parse_spec-Sound_example = parse_spec-Sound text_cel documents "policy" policy policy-parse_spec

abbrev limits : StoreLimits
limits = record {
  max_calls_per_hour = pos 2;
  max_calls_per_day = pos 5;
  max_tokens_per_day = pos 100;
}

abbrev now : Now
now = record { instant = 100; year_day = 1 }

abbrev later : Now
later = record { instant = 200; year_day = 1 }

-- The store after a first call
abbrev used_store : BudgetStore
used_store = (check_store (new_budget_store limits) "alice" "s1" (pos 10) now).0

second_call : (check_store used_store "alice" "s1" (pos 10) later).1.allowed ≡ true
unfolding check_store new_budget_store check_identity_budget check_session check_key record_of
    trim_budget over_limit record_in remaining count_in Dict.lookup Dict.put trim add64
second_call = refl

check_store-Counts_example :
    let s' = (check_store used_store "alice" "s1" (pos 10) later).0 in
    Counts used_store.limits used_store.identity s'.identity "alice" (pos 10) later
    × Counts used_store.limits used_store.sessions s'.sessions "s1" (pos 10) later
check_store-Counts_example = check_store-Counts used_store "alice" "s1" (pos 10) later second_call

abbrev held : Hold
held = record {
  id = "hold-1";
  tool = "delete_repo";
  identity = "alice";
  session_id = "s1";
  reason = "held";
  state = pending;
  on_timeout = "DENY";
  payload = "";
  created_at = 0;
  resolved_at = none;
  resolved_by = "";
}

abbrev store : HoldStore
store = create new_hold_store held 300

resolve-closed_example :
    (((resolve (resolve store "hold-1" approved "bob" 10).0 "hold-1" denied "eve" 20).1 ≡ [])
      × (is_some (resolve (resolve store "hold-1" approved "bob" 10).0 "hold-1" denied "eve" 20).2
          ≡ true)
      × ((run_timeout (resolve store "hold-1" approved "bob" 10).0 "hold-1" "DENY" 20).1 ≡ []))
    × (((resolve (run_timeout store "hold-1" "DENY" 10).0 "hold-1" denied "eve" 20).1 ≡ [])
        × (is_some (resolve (run_timeout store "hold-1" "DENY" 10).0 "hold-1" denied "eve" 20).2
            ≡ true)
        × ((run_timeout (run_timeout store "hold-1" "DENY" 10).0 "hold-1" "DENY" 20).1 ≡ []))
resolve-closed_example = resolve-closed store "hold-1" "DENY" "bob" "eve" approved denied 10 20

abbrev event_of : String → AuditEvent
event_of tool = record no_event { event_type = "tool.denied"; tool = tool; timestamp = some 1 }

abbrev three_events : List (AuditEvent × ℕ)
three_events = (event_of "c", 3) ∷ (event_of "b", 2) ∷ (event_of "a", 1) ∷ []

-- A ring of two events has lost the first of three.
list_events-latest_example :
    list_events (ring (pos 2) three_events) "tool.denied" (pos 0) ≡ event_of "c" ∷ event_of "b" ∷ []
unfolding new_event_buffer
list_events-latest_example = list_events-latest (pos 2) (pos 0) "tool.denied" three_events
