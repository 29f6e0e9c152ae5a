-- ===== src/Tests/Gating.antt =====
-- Runs of pkg/gates/gates.go and pkg/budget/tracker.go.
use nullfield.Prelude.{
  ◌↔◌, ne_of_eq-false, ◌≡◌, refl, ◌≤◌, ◌≢◌, ◌++◌, ◌&&◌, not, ℕ, String, true, false, List, [], ◌∷◌,
  none, some, pos, length, arith, is_some,
}
use nullfield.Times.{hour, minute, trim}
use nullfield.Times.Sliding.{IsOrdered}
use nullfield.Api.{ToolRegistryEntry}
use nullfield.Policy.Engine.{Decision}
use nullfield.Prelude.Dict
use nullfield.Registry
use nullfield.Budget
use nullfield.Budget.{Now, Tracker, Limits, check_and_record}
use nullfield.Budget.Atomic.{hourly_of, daily_of, charge, is_charged}
use nullfield.Budget.Judged.{HasBudget, check_and_record_iff}
use nullfield.Budget.Quota
use nullfield.Budget.Quota.{hourly_window, hourly_calls-le}
use nullfield.Gates
use nullfield.Gates.{Gates, Call, Clock, admit}
use nullfield.Gates.RateLimits.{RateLimit, new_rates, key_of}
use nullfield.Gates.RateLimits.PerMinute
use nullfield.Gates.RateLimits.PerMinute.{
  live, stamps, Fits, minute_window, take_lem, minute_calls-le,
}

abbrev limited : ToolRegistryEntry
limited = record {
  name = "send";
  description = "";
  allowed_scopes = [];
  signature_hash = "";
  max_calls_per_min = pos 2;
}

abbrev gates : Gates
gates = record {
  registry = some (record { tools = ("send", limited) ∷ [] });
  breaker = none;
  budgets = some Budget.new;
  velocity = none;
  rates = some new_rates;
}

abbrev call : Call
call = record { tool = "send"; subject = "alice"; session = "s1" }

abbrev clock : Clock
clock = record {
  rates_at = 100;
  budgets_at = record { instant = 101; year_day = 1 };
  breaker_at = 102;
  velocity_at = 103;
}

abbrev decision : Decision
decision = record {
  allowed = true;
  held = false;
  scoped = false;
  reason = "";
  gate = "policy";
  reason_class = "allowed";
  rule_index = pos 0;
  rule_id = "";
  labels = none;
  matched_rule = none;
  counterfactual = "";
}

abbrev two_an_hour : Limits
two_an_hour = record {
  max_calls_per_hour = pos 2;
  max_calls_per_day = pos 0;
  max_tokens_per_day = pos 0;
}

abbrev at : ℕ → Now
at t = record { instant = t; year_day = 1 }

abbrev alice_call : ℕ → Quota.Call
alice_call t = record { subject = "alice"; session = "s1"; per_session = none; now = at t }

check_and_record_iff_example :
    let r = check_and_record Budget.new "alice" "s1" (some two_an_hour) (some two_an_hour) (at 5) in
    let passed = not (is_some r.1) in
    let to_identity = charge (passed && is_charged (some two_an_hour) "alice") "alice" "alice" 5 in
    let to_session = charge (passed && is_charged (some two_an_hour) "s1") "s1" "alice" 5 in
    ((r.1 ≡ none) ↔ (
      HasBudget (some two_an_hour) "alice" (Budget.new.identity "alice") (at 5)
      × HasBudget (some two_an_hour) "s1" (Budget.new.sessions "s1") (at 5)))
    × (hourly_of r.0.identity "alice" 5 ≡ hourly_of Budget.new.identity "alice" 5 ++ to_identity)
    × (daily_of r.0.identity "alice" 5 ≡ daily_of Budget.new.identity "alice" 5 ++ to_identity)
    × (hourly_of r.0.sessions "alice" 5 ≡ hourly_of Budget.new.sessions "alice" 5 ++ to_session)
    × (daily_of r.0.sessions "alice" 5 ≡ daily_of Budget.new.sessions "alice" 5 ++ to_session)
check_and_record_iff_example =
    check_and_record_iff Budget.new "alice" "s1" "alice" (some two_an_hour) (some two_an_hour)
      (at 5)

abbrev alice : String
alice = "alice"

alice-named : alice ≢ ""
alice-named = ne_of_eq-false "alice" "" refl

abbrev three_calls : List Quota.Call
three_calls = alice_call 1 ∷ alice_call 2 ∷ alice_call 3 ∷ []

three_calls-IsOrdered : IsOrdered (hourly_window two_an_hour "alice") 0 three_calls 4
unfolding hourly_window
three_calls-IsOrdered = (omega arith, (omega arith, (omega arith, omega arith)))

hourly_calls-le_example :
    length (trim hour 4 (Quota.passed_calls two_an_hour "alice" three_calls Budget.new)) ≤ 2
hourly_calls-le_example =
    hourly_calls-le two_an_hour "alice" 1 0 4 three_calls alice-named refl three_calls-IsOrdered

abbrev send_limit : RateLimit
send_limit = record { scope = "tool send"; max = pos 2 }

abbrev request : ℕ → PerMinute.Request
request t = record { subject = "alice"; limits = send_limit ∷ []; now = t }

request-Fits : Fits (key_of send_limit "alice") 1 "alice" (send_limit ∷ [])
unfolding stamps
request-Fits = record { bound = ((λ e. refl), tt); once = λ now. omega arith }

abbrev three_requests : List PerMinute.Request
three_requests = request 1 ∷ request 2 ∷ request 3 ∷ []

three_requests-IsOrdered : IsOrdered (minute_window (key_of send_limit "alice")) 0 three_requests 4
unfolding minute_window
three_requests-IsOrdered = (omega arith, (omega arith, (omega arith, omega arith)))

minute_calls-le_example :
    length
      (trim minute 4 (PerMinute.passed_calls (key_of send_limit "alice") three_requests new_rates))
    ≤ 2
minute_calls-le_example =
    minute_calls-le (key_of send_limit "alice") 1 0 4 three_requests
      (request-Fits, (request-Fits, (request-Fits, tt))) three_requests-IsOrdered
