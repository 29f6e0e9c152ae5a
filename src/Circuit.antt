-- ===== src/Circuit.antt =====
-- pkg/circuit/breaker.go: the limits on a session's calls and age. `time.Now` is an argument. A
-- session's calls are counted in ℕ: one call at a time does not reach 2 ^ 63.
pub mod Limits
pub mod Counting
pub mod Traffic
use nullfield.Prelude.{
  ℕ, suc, ◌+◌, String, Bool, true, false, not, ◌&&◌, Option, none, some, ◌==◌, if◌then◌else◌, ℤ,
  is_positive, ge_count, double64, Map, empty, insert, delete, sweep_if,
}
use nullfield.Times.{elapsed_gt}

-- `sessionState`
pub record SessionState : Type 0 where
  pub calls : ℕ
  pub started : ℕ
  pub tripped : Bool

-- `Breaker`
pub record Breaker : Type 0 where
  pub sessions : Map SessionState
  pub max_calls : ℤ
  pub max_duration : ℤ

unfoldable pub new : ℤ → ℤ → Breaker
new max_calls max_duration = record {
  sessions = empty;
  max_calls = max_calls;
  max_duration = max_duration;
}

-- The two tests of `Allow` on a session that is known.
unfoldable pub within_limits : Breaker → SessionState → ℕ → Bool
within_limits b s now =
    if is_positive b.max_calls && ge_count s.calls b.max_calls
    then false
    else not (is_positive b.max_duration && elapsed_gt now s.started b.max_duration)

-- `Allow`
unfoldable pub is_allowed : Breaker → String → ℕ → Bool
is_allowed b id now =
    if id == "" then true else elim (b.sessions id) [ none ↦ true | some s ↦ within_limits b s now ]

-- `Record` on the session's state.
unfoldable pub count_call : Option SessionState → ℕ → SessionState
count_call none now = record { calls = 1; started = now; tripped = false }
count_call (some s) now = record s { calls = suc s.calls }

-- `Record`
unfoldable pub record_call : Breaker → String → ℕ → Breaker
record_call b id now =
    if id == ""
    then b
    else record b { sessions = insert id (count_call (b.sessions id) now) b.sessions }

-- `FirstTrip`
pub first_trip : Breaker → String → Breaker × Bool
first_trip b id = elim (b.sessions id) [
  | none ↦ (b, false)
  | some s ↦
      if s.tripped
      then (b, false)
      else (record b { sessions = insert id (record s { tripped = true }) b.sessions }, true)
]

-- `Reset`
abbrev pub reset : Breaker → String → Breaker
reset b id = record b { sessions = delete id b.sessions }

abbrev pub is_stale : Breaker → ℕ → SessionState → Bool
is_stale b now s = is_positive b.max_duration && elapsed_gt now s.started (double64 b.max_duration)

-- `Sweep`
pub sweep : Breaker → ℕ → Breaker
sweep b now = record b { sessions = sweep_if (is_stale b now) b.sessions }
