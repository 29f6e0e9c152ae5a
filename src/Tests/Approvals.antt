-- ===== src/Tests/Approvals.antt =====
-- Runs of pkg/hold/manager.go.
use nullfield.Prelude.{◌≡◌, refl, ◌≤◌, true, false, List, [], ◌∷◌, none, any, arith}
use nullfield.Prelude.Dict
use nullfield.Hold.{Ask, new, hold, resolve}
use nullfield.Hold.Once.{
  Event, held, decided, slept, run, step, sends, holds_of, is_pending, run-sends_once, run-resolved,
}
use nullfield.Hold.Approval.{goes_ahead, approves, IsBounded, run-goes_ahead}

abbrev ask : Ask
ask = record {
  tool = "delete_repo";
  arguments = none;
  identity = "alice";
  session_id = "s1";
  reason = "held for approval: delete_repo";
}

-- A hold that is approved, and whose sleep is over later.
abbrev approved_once : List Event
approved_once = held "hold-1" ask 300 0 ∷ decided "hold-1" true "bob" 10 ∷ slept "hold-1" 300 ∷ []

run-sends_once_example : sends "hold-1" (run new approved_once).1 ≤ holds_of "hold-1" approved_once
run-sends_once_example = run-sends_once "hold-1" approved_once

abbrev later_events : List Event
later_events =
    decided "hold-2" true "bob" 5 ∷ slept "hold-1" 300 ∷ decided "hold-1" true "bob" 301 ∷ []

no_later_hold : holds_of "hold-1" later_events ≡ 0
unfolding holds_of
no_later_hold = refl

run-resolved_example :
    (sends "hold-1" (run (hold new "hold-1" ask 300 0) later_events).1 ≡ 1)
    × (is_pending "hold-1" (run (hold new "hold-1" ask 300 0) later_events).0 ≡ false)
run-resolved_example = run-resolved "hold-1" ask 300 0 new later_events no_later_hold refl

approved_once-goes_ahead : goes_ahead "hold-1" (run new approved_once).1 ≡ true
unfolding goes_ahead run step resolve Dict.lookup hold Dict.put new
approved_once-goes_ahead = refl

run-goes_ahead_example : any (approves "hold-1") approved_once ≡ true
run-goes_ahead_example = run-goes_ahead "hold-1" new approved_once approved_once-goes_ahead

new-IsBounded : IsBounded new
unfolding new
new-IsBounded = omega arith
