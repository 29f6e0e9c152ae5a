-- ===== src/Anomaly/Velocity/Counts.antt =====
-- What an alert of pkg/anomaly/velocity.go counts.
use native.Mathlib.Nat.{le_refl}
use mathlib.Core.List.{append-nil}
use nullfield.Prelude.{
  ℕ, suc, ◌≡◌, refl, sym, ap, inl, inr, String, List, [], ◌∷◌, ◌++◌, none, some, ◌==◌, eq_iff,
  arith, if◌then◌else◌, length, Map, Bool-cases, empty, ltb, positive_or, length-append,
}
use nullfield.Times.{minute, trim, trim-trim, trim-append, trim-now}
use nullfield.Times.Sliding.{Sliding, run, log, IsOrdered, view-run}
use nullfield.Anomaly.Velocity.{
  VelocityConfig, VelocityTracker, new, calls_of, recorded, record_call,
}

pub record Call : Type 0 where
  pub subject : String
  pub tool : String
  pub now : ℕ

-- A tracker with the windows `m`: its other fields never change.
abbrev tracker : VelocityConfig → Map (List ℕ) → VelocityTracker
tracker cfg m = record (new cfg) { windows = m }

-- The tracker after a series of calls.
pub after : VelocityTracker → List Call → VelocityTracker
after v [] = v
after v (c ∷ calls) = after (record_call v c.subject c.tool c.now).0 calls

-- The instants of the calls of one identity.
abbrev own : String → Call → List ℕ
own id c = if c.subject == id then c.now ∷ [] else []

pub instants : String → List Call → List ℕ
instants id [] = []
instants id (c ∷ calls) = own id c ++ instants id calls

module _ (cfg : VelocityConfig) (id : String) where
  abbrev step : Map (List ℕ) → Call → Map (List ℕ)
  step m c = (record_call (tracker cfg m) c.subject c.tool c.now).0.windows

  abbrev view : Map (List ℕ) → ℕ → List ℕ
  view m now = trim minute now (calls_of (m id))

  pub view-step : (m : Map (List ℕ)) (c : Call) → view (step m c) c.now ≡ view m c.now ++ own id c
  unfolding record_call recorded new
  view-step m c = elim (Bool-cases (c.subject == id)) [
    | inl same ↦ ground (
      arith,
      (eq_iff c.subject id).0 same,
      trim-append minute c.now (trim minute c.now (calls_of (m c.subject))) (c.now ∷ []),
      trim-trim minute c.now c.now (calls_of (m c.subject)) (le_refl c.now),
      trim-now minute c.now (omega arith),
    )
    | inr other ↦ ground (arith, append-nil (view m c.now))
  ]

  unfoldable pub minute_window : Sliding (Map (List ℕ)) Call minute
  minute_window = record {
    view = view;
    instant = λ c. c.now;
    step = step;
    added = λ m c. own id c;
    view-later = λ m now later h. sym (trim-trim minute now later (calls_of (m id)) h);
    view-step = view-step;
  }

  log-instants :
      (calls : List Call) (m : Map (List ℕ)) → log minute_window calls m ≡ instants id calls
  unfolding log minute_window instants
  log-instants [] m = refl
  log-instants (c ∷ calls) m = ap (λ xs. own id c ++ xs) (log-instants calls (step m c))

  after-run :
      (calls : List Call) (m : Map (List ℕ))
      → after (tracker cfg m) calls ≡ tracker cfg (run minute_window calls m)
  unfolding after run minute_window record_call
  after-run [] m = refl
  after-run (c ∷ calls) m = after-run calls (step m c)

after_new :
    (cfg : VelocityConfig) (id : String) (calls : List Call)
    → after (new cfg) calls ≡ tracker cfg (run (minute_window cfg id) calls empty)
unfolding new
after_new cfg id calls = after-run cfg id calls empty

recorded_count :
    (cfg : VelocityConfig) (calls : List Call) (id : String) (start now : ℕ)
    → IsOrdered (minute_window cfg id) start calls now
    → length (recorded (tracker cfg (run (minute_window cfg id) calls empty)) id now)
      ≡ suc (length (trim minute now (instants id calls)))
unfolding recorded new trim minute_window
recorded_count cfg calls id start now o =
    let shown = view-run (minute_window cfg id) start now [] calls empty o (λ later h. refl) in
    rw (shown, log-instants cfg id calls empty)
      (omega (arith, length-append (trim minute now (instants id calls)) (now ∷ [])))

-- After any ordered calls, by any identities, a further call raises an alert exactly if it makes
-- more calls of its identity in the minute up to it than the threshold, and the alert says how
-- many those are.
pub record_call_alert :
    (cfg : VelocityConfig) (calls : List Call) (id tool : String) (start now : ℕ)
    → IsOrdered (minute_window cfg id) start calls now
    → let v = after (new cfg) calls in
      let made = suc (length (trim minute now (instants id calls))) in
      (record_call v id tool now).1 ≡ (
        if ltb (positive_or cfg.threshold 30) made
        then some (record {
          identity = id;
          tool = tool;
          calls_per_min = made;
          threshold = positive_or cfg.threshold 30;
          action = v.action;
        })
        else none)
unfolding record_call new
record_call_alert cfg calls id tool start now o =
    let same : after (new cfg) calls ≡ tracker cfg (run (minute_window cfg id) calls empty) =
      after_new cfg id calls in
    rw same (rw (recorded_count cfg calls id start now o) refl)
