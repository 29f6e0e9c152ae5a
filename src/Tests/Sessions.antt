-- ===== src/Tests/Sessions.antt =====
-- Runs of pkg/circuit and pkg/anomaly.
use nullfield.Prelude.{
  ne_of_eq-false, ◌≡◌, refl, ◌≤◌, ◌≢◌, ◌<◌, ◌+◌, ◌↔◌, String, true, false, List, [], ◌∷◌, pos,
  double64, insert, empty, arith,
}
use nullfield.Times.Sliding.{IsOrdered}
use nullfield.Circuit
use nullfield.Circuit.{SessionState, Breaker, is_allowed, sweep}
use nullfield.Circuit.Traffic.{Move, asks, records, move, recorded, Overlaps, quiet, recorded-le}
use nullfield.Circuit.Counting.{called, refused, reports, reports-le-one, sweep_readmits}
use nullfield.Anomaly.Velocity.{VelocityConfig}
use nullfield.Anomaly.Velocity.Counts
use nullfield.Anomaly.Velocity.Counts.{minute_window, after, instants, record_call_alert}
use nullfield.Anomaly.Sequence.{SequencePattern, SequenceTracker, matches_sequence}
use nullfield.Anomaly.Sequence.Matching.{Within, matches_sequence_iff}

abbrev session : String
session = "s1"

named : session ≢ ""
named = ne_of_eq-false "s1" "" refl

-- Two calls of a session that may make one are admitted before either is recorded, and a third is not.
abbrev overlapping : List Move
overlapping =
    asks "s1" 1 ∷ asks "s1" 2 ∷ asks "s2" 2 ∷ records "s1" 3 ∷ records "s1" 4 ∷ asks "s1" 5 ∷ []

overlapping-Overlaps : Overlaps 2 "s1" overlapping (quiet 0 (pos 0))
unfolding Overlaps move is_allowed Circuit.within_limits Circuit.record_call Circuit.count_call
    Circuit.new
overlapping-Overlaps = (
  omega arith,
  (omega arith, (omega arith, (omega arith, (omega arith, (omega arith, omega arith))))),
)

two_recorded : recorded "s1" overlapping (quiet 0 (pos 0)) ≡ 2
unfolding recorded move is_allowed Circuit.within_limits Circuit.record_call Circuit.count_call
    Circuit.new
two_recorded = refl

recorded-le_example : recorded "s1" overlapping (quiet 0 (pos 0)) ≤ 0 + 2
recorded-le_example = recorded-le 0 2 (pos 0) "s1" overlapping named overlapping-Overlaps

reports-le-one_example :
    reports "s1" (called "s1" 1 ∷ refused "s1" ∷ refused "s1" ∷ []) (Circuit.new (pos 1) (pos 0))
    ≤ 1
reports-le-one_example =
    reports-le-one "s1" (called "s1" 1 ∷ refused "s1" ∷ refused "s1" ∷ [])
      (Circuit.new (pos 1) (pos 0))

abbrev old_session : SessionState
old_session = record { calls = 7; started = 0; tripped = true }

abbrev old_breaker : Breaker
old_breaker = record {
  sessions = insert "s1" old_session empty;
  max_calls = pos 5;
  max_duration = pos 10;
}

twice : double64 (pos 10) ≡ pos 20
unfolding double64
twice = refl

sweep_readmits_example :
    (is_allowed old_breaker "s1" 22 ≡ false)
    × (20 ≤ 20 → is_allowed (sweep old_breaker 20) "s1" 22 ≡ false)
    × (20 < 20 → is_allowed (sweep old_breaker 20) "s1" 22 ≡ true)
sweep_readmits_example =
    sweep_readmits old_breaker "s1" old_session 9 20 22 named refl refl twice (omega arith)

abbrev exfiltration : List SequencePattern
exfiltration =
    record { name = "exfiltration"; tools = "read" ∷ "send" ∷ []; alert_action = "DENY" } ∷ []

abbrev wanted : List String
wanted = "read" ∷ "send" ∷ []

matches_sequence_iff_example :
    (matches_sequence ("read" ∷ "list" ∷ "send" ∷ []) wanted ≡ true)
    ↔ ((wanted ≢ []) × Within wanted ("read" ∷ "list" ∷ "send" ∷ []))
matches_sequence_iff_example = matches_sequence_iff ("read" ∷ "list" ∷ "send" ∷ []) wanted

abbrev watching : SequenceTracker
watching = record {
  patterns = exfiltration;
  sessions = insert "s1" ("read" ∷ "list" ∷ []) empty;
  max_hist = 20;
}

abbrev alerting : VelocityConfig
alerting = record { threshold = pos 2; alert_action = "DENY" }

abbrev fast_calls : List Counts.Call
fast_calls =
    record { subject = "alice"; tool = "read"; now = 100 }
    ∷ record { subject = "bob"; tool = "read"; now = 150 }
    ∷ record { subject = "alice"; tool = "send"; now = 200 }
    ∷ []

fast_calls-IsOrdered : IsOrdered (minute_window alerting "alice") 0 fast_calls 300
unfolding minute_window
fast_calls-IsOrdered = (omega arith, (omega arith, (omega arith, omega arith)))
