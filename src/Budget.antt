-- ===== src/Budget.antt =====
-- pkg/budget/tracker.go: quotas on the calls and tokens of an identity and of a session. The
-- instant and the day of the year that `time.Now` gives are arguments.
pub mod Atomic
pub mod Judged
pub mod Quota
use nullfield.Prelude.{
  ℕ, ◌+◌, String, Bool, true, ◌&&◌, ◌||◌, List, [], ◌∷◌, ◌++◌, Option, none, some, ◌==◌,
  if◌then◌else◌, ltb, length, ℤ, pos, is_positive, ge_count, ◌≥ℤ◌, add64, decimal, decimal_int,
  ◌+++◌, Map, empty, insert, sweep_if,
}
use nullfield.Api.{BudgetLimits}
use nullfield.Times.{hour, day, trim}

-- What `time.Now()` gives.
pub record Now : Type 0 where
  pub instant : ℕ
  pub year_day : ℕ

-- `usageRecord`
pub record UsageRecord : Type 0 where
  pub hourly_calls : List ℕ
  pub daily_calls : List ℕ
  pub daily_tokens : ℤ
  pub last_reset_day : ℕ

-- `Tracker`
pub record Tracker : Type 0 where
  pub identity : Map UsageRecord
  pub sessions : Map UsageRecord

pub new : Tracker
new = record { identity = empty; sessions = empty }

-- `Limits`
pub record Limits : Type 0 where
  pub max_calls_per_hour : ℤ
  pub max_calls_per_day : ℤ
  pub max_tokens_per_day : ℤ

-- `trimTimestamps`
pub trim_timestamps : UsageRecord → Now → UsageRecord
trim_timestamps rec now = record rec {
  hourly_calls = trim hour now.instant rec.hourly_calls;
  daily_calls = trim day now.instant rec.daily_calls;
}

-- `getOrCreate`, on what the map holds for the key; the caller stores the result.
pub get_or_create : Option UsageRecord → Now → UsageRecord
get_or_create none now = record {
  hourly_calls = [];
  daily_calls = [];
  daily_tokens = pos 0;
  last_reset_day = now.year_day;
}
get_or_create (some found) now =
    let rec = trim_timestamps found now in
    if ltb now.year_day rec.last_reset_day || ltb rec.last_reset_day now.year_day
    then record rec { daily_tokens = pos 0; last_reset_day = now.year_day }
    else rec

-- `checkLimits` on a record that it has trimmed.
pub exceeded : UsageRecord → Limits → Option String
exceeded rec limits =
    if is_positive limits.max_calls_per_hour
      && ge_count (length rec.hourly_calls) limits.max_calls_per_hour
    then some (
        "hourly call limit reached ("
        +++ decimal (length rec.hourly_calls)
        +++ "/"
        +++ decimal_int limits.max_calls_per_hour
        +++ ")")
    else if is_positive limits.max_calls_per_day
        && ge_count (length rec.daily_calls) limits.max_calls_per_day
    then some (
        "daily call limit reached ("
        +++ decimal (length rec.daily_calls)
        +++ "/"
        +++ decimal_int limits.max_calls_per_day
        +++ ")")
    else if is_positive limits.max_tokens_per_day && rec.daily_tokens ≥ℤ limits.max_tokens_per_day
    then some (
        "daily token limit reached ("
        +++ decimal_int rec.daily_tokens
        +++ "/"
        +++ decimal_int limits.max_tokens_per_day
        +++ ")")
    else none

-- `getOrCreate` and `checkLimits` for one map, where a limit and a key are given.
pub check_part : Map UsageRecord → String → Option Limits → Now → Map UsageRecord × Option String
check_part m key none now = (m, none)
check_part m key (some limits) now =
    if key == ""
    then (m, none)
    else let rec = trim_timestamps (get_or_create (m key) now) now in
      (insert key rec m, exceeded rec limits)

abbrev append_call : UsageRecord → Now → UsageRecord
append_call rec now = record rec {
  hourly_calls = rec.hourly_calls ++ now.instant ∷ [];
  daily_calls = rec.daily_calls ++ now.instant ∷ [];
}

-- The recording of a call in one map, which `check_part` has given a record for the key.
pub record_part : Map UsageRecord → String → Option Limits → Now → Map UsageRecord
record_part m key none now = m
record_part m key (some limits) now =
    if key == ""
    then m
    else elim (m key) [ none ↦ m | some rec ↦ insert key (append_call rec now) m ]

-- `CheckAndRecord`
pub check_and_record :
    Tracker → String → String → Option Limits → Option Limits → Now → Tracker × Option String
check_and_record t subject session per_identity per_session now =
    let (identity, identity_error) = check_part t.identity subject per_identity now in
    elim identity_error [
      | some e ↦ (record t { identity = identity }, some ("identity budget: " +++ e))
      | none ↦
          let (sessions, session_error) = check_part t.sessions session per_session now in
          elim session_error [
            | some e ↦ (
              record { identity = identity; sessions = sessions },
              some ("session budget: " +++ e),
            )
            | none ↦ (
              record {
                identity = record_part identity subject per_identity now;
                sessions = record_part sessions session per_session now;
              },
              none,
            )
          ]
    ]

abbrev add_tokens : ℤ → String → Map UsageRecord → Map UsageRecord
add_tokens tokens key m = elim (m key) [
  | none ↦ m
  | some rec ↦ insert key (record rec { daily_tokens = add64 rec.daily_tokens tokens }) m
]

-- `RecordTokens`
abbrev pub record_tokens : Tracker → String → String → ℤ → Tracker
record_tokens t subject session tokens = record {
  identity = add_tokens tokens subject t.identity;
  sessions = add_tokens tokens session t.sessions;
}

-- `GetUsage`
abbrev pub get_usage : Tracker → String → Now → Tracker × (ℕ × ℕ × ℤ)
get_usage t subject now = elim (t.identity subject) [
  | none ↦ (t, (0, 0, pos 0))
  | some found ↦
      let rec = trim_timestamps found now in
      (
        record t { identity = insert subject rec t.identity },
        (length rec.hourly_calls, length rec.daily_calls, rec.daily_tokens),
      )
]

-- `len(calls) == 0 || calls[len(calls)-1].Before(cutoff)`
abbrev pub last_is_before : ℕ → ℕ → List ℕ → Bool
last_is_before d now [] = true
last_is_before d now (t ∷ []) = ltb (t + d) now
last_is_before d now (t ∷ u ∷ ts) = last_is_before d now (u ∷ ts)

-- `Sweep`
abbrev pub sweep : Tracker → ℕ → Tracker
sweep t now = record {
  identity = sweep_if (λ rec. last_is_before day now rec.daily_calls) t.identity;
  sessions = sweep_if (λ rec. last_is_before day now rec.daily_calls) t.sessions;
}

-- `limits` of pkg/gates/gates.go
abbrev pub limits_of : Option BudgetLimits → Option Limits
limits_of none = none
limits_of (some l) = some (record {
  max_calls_per_hour = l.max_calls_per_hour;
  max_calls_per_day = l.max_calls_per_day;
  max_tokens_per_day = l.max_tokens_per_day;
})
