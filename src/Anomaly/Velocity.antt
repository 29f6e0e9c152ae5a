-- ===== src/Anomaly/Velocity.antt =====
-- pkg/anomaly/velocity.go: how fast an identity calls. `time.Now` is an argument.
pub mod Counts
use nullfield.Prelude.{
  ℕ, ◌+◌, ◌*◌, String, Bool, true, false, List, [], ◌∷◌, ◌++◌, Option, none, some, ◌==◌,
  if◌then◌else◌, ltb, length, ℤ, positive_or, Map, empty, insert, sweep_if,
}
use nullfield.Times.{minute, trim}

abbrev pub alert_action_log : String
alert_action_log = "LOG"

abbrev pub alert_action_deny : String
alert_action_deny = "DENY"

-- `Alert`
pub record Alert : Type 0 where
  pub identity : String
  pub tool : String
  pub calls_per_min : ℕ
  pub threshold : ℕ
  pub action : String

-- `VelocityConfig`
pub record VelocityConfig : Type 0 where
  pub threshold : ℤ
  pub alert_action : String

-- `VelocityTracker`; the constructor leaves no threshold that is not positive.
pub record VelocityTracker : Type 0 where
  pub windows : Map (List ℕ)
  pub threshold : ℕ
  pub window : ℕ
  pub action : String

-- `NewVelocityTracker`
pub new : VelocityConfig → VelocityTracker
new cfg = record {
  windows = empty;
  threshold = positive_or cfg.threshold 30;
  window = minute;
  action = if cfg.alert_action == "" then alert_action_log else cfg.alert_action;
}

abbrev pub calls_of : Option (List ℕ) → List ℕ
calls_of none = []
calls_of (some calls) = calls

-- The calls that `Record` leaves in the identity's window.
pub recorded : VelocityTracker → String → ℕ → List ℕ
recorded v subject now = trim v.window now (calls_of (v.windows subject)) ++ now ∷ []

-- `Record`
pub record_call : VelocityTracker → String → String → ℕ → VelocityTracker × Option Alert
record_call v subject tool now =
    let calls = recorded v subject now in
    (
      record v { windows = insert subject calls v.windows },
      if ltb v.threshold (length calls)
          then some (record {
            identity = subject;
            tool = tool;
            calls_per_min = length calls;
            threshold = v.threshold;
            action = v.action;
          })
          else none,
    )

-- `len(calls) == 0 || calls[len(calls)-1].Before(cutoff)`, of a window twice as long
unfoldable pub last_is_before : ℕ → ℕ → List ℕ → Bool
last_is_before d now [] = true
last_is_before d now (t ∷ []) = ltb (t + d) now
last_is_before d now (t ∷ u ∷ ts) = last_is_before d now (u ∷ ts)

-- `Sweep`
abbrev pub sweep : VelocityTracker → ℕ → VelocityTracker
sweep v now = record v { windows = sweep_if (last_is_before (2 * v.window) now) v.windows }
