-- ===== src/Budget/Judged.antt =====
-- Which calls `CheckAndRecord` of pkg/budget/tracker.go accepts, and what it then records.
use mathlib.Core.Path.{subst}
use mathlib.Core.Option.{some-injective}
use nullfield.Prelude.{
  ℕ, zero, suc, ◌≤◌, ◌≡◌, ◌≢◌, refl, ◌↔◌, inl, inr, String, false, ◌&&◌, ◌||◌, not, is_some, ◌++◌,
  Option, none, some, ◌==◌, eq_iff, arith, if◌then◌else◌, length, ltb, ℤ, pos, negsuc, is_positive,
  ge_count, ◌≥ℤ◌, Map, Bool-cases,
}
use nullfield.Budget.{
  Now, UsageRecord, Tracker, Limits, trim_timestamps, get_or_create, exceeded, check_part,
  check_and_record,
}
use nullfield.Budget.Atomic.{
  hourly, daily, hourly_of, daily_of, charge, is_charged, refreshed, refreshed_calls,
  check_and_record_lem,
}

-- The tokens of a record that count on a day of the year: those of another day do not.
abbrev pub tokens_on : Option UsageRecord → ℕ → ℤ
tokens_on none year_day = pos 0
tokens_on (some rec) year_day =
    if ltb year_day rec.last_reset_day || ltb rec.last_reset_day year_day
    then pos 0
    else rec.daily_tokens

-- Under each limit that is positive there is room for one more call, and for tokens.
abbrev Room : Limits → ℕ → ℕ → ℤ → Type 0
Room limits hours days tokens =
    ((n : ℕ) → limits.max_calls_per_hour ≡ pos (suc n) → hours ≤ n)
    × ((n : ℕ) → limits.max_calls_per_day ≡ pos (suc n) → days ≤ n)
    × ((n : ℕ) → limits.max_tokens_per_day ≡ pos (suc n) → (tokens ≥ℤ pos (suc n)) ≡ false)

-- Where a limit is set and its key is given, there is room under it beside what counts at the instant.
abbrev pub HasBudget : Option Limits → String → Option UsageRecord → Now → Type 0
HasBudget limit key found now =
    (limits : Limits)
    → limit ≡ some limits
    → key ≢ ""
    → Room limits (length (hourly found now.instant)) (length (daily found now.instant))
        (tokens_on found now.year_day)

is_reached_iff :
    (z : ℤ) (k : ℕ)
    → ((is_positive z && ge_count k z) ≡ false) ↔ ((n : ℕ) → z ≡ pos (suc n) → k ≤ n)
is_reached_iff (pos zero) k = ((λ _ n e. ground arith), λ _. ground arith)
is_reached_iff (pos (suc m)) k = ((λ h n e. ground arith), λ h. ground (arith, h m refl))
is_reached_iff (negsuc m) k = ((λ _ n e. ground arith), λ _. ground arith)

is_spent_iff :
    (z t : ℤ)
    → ((is_positive z && t ≥ℤ z) ≡ false) ↔ ((n : ℕ) → z ≡ pos (suc n) → (t ≥ℤ pos (suc n)) ≡ false)
is_spent_iff (pos zero) t = ((λ _ n e. ground arith), λ _. ground arith)
is_spent_iff (pos (suc m)) t =
    ((λ h n e. subst (λ z. (t ≥ℤ z) ≡ false) e (ground arith)), λ h. ground (arith, h m refl))
is_spent_iff (negsuc m) t = ((λ _ n e. ground arith), λ _. ground arith)

exceeded_tests :
    (rec : UsageRecord) (limits : Limits)
    → (exceeded rec limits ≡ none) ↔ (
        ((is_positive limits.max_calls_per_hour
            && ge_count (length rec.hourly_calls) limits.max_calls_per_hour)
          ≡ false)
        × ((is_positive limits.max_calls_per_day
              && ge_count (length rec.daily_calls) limits.max_calls_per_day)
            ≡ false)
        × ((is_positive limits.max_tokens_per_day && rec.daily_tokens ≥ℤ limits.max_tokens_per_day)
            ≡ false))
unfolding exceeded
exceeded_tests rec limits =
    ((λ h. (ground arith, ground arith, ground arith)), λ h. ground (arith, h.0, h.1, h.2))

exceeded_iff :
    (rec : UsageRecord) (limits : Limits)
    → (exceeded rec limits ≡ none)
      ↔ Room limits (length rec.hourly_calls) (length rec.daily_calls) rec.daily_tokens
exceeded_iff rec limits =
    let hours = is_reached_iff limits.max_calls_per_hour (length rec.hourly_calls) in
    let days = is_reached_iff limits.max_calls_per_day (length rec.daily_calls) in
    let tokens = is_spent_iff limits.max_tokens_per_day rec.daily_tokens in
    let tests = exceeded_tests rec limits in
    (
      (λ h. let (a, b, c) = tests.0 h in (hours.0 a, days.0 b, tokens.0 c)),
      λ (a, b, c). tests.1 (hours.1 a, days.1 b, tokens.1 c),
    )

refreshed_tokens :
    (found : Option UsageRecord) (now : Now)
    → (refreshed found now).daily_tokens ≡ tokens_on found now.year_day
unfolding refreshed get_or_create trim_timestamps
refreshed_tokens none now = refl
refreshed_tokens (some rec) now = ground arith

refreshed_iff :
    (found : Option UsageRecord) (limits : Limits) (now : Now)
    → (exceeded (refreshed found now) limits ≡ none)
      ↔ Room limits
          (length (hourly found now.instant))
          (length (daily found now.instant))
          (tokens_on found now.year_day)
refreshed_iff found limits now =
    let (hours, days) = refreshed_calls found now in
    subst
      (λ l.
        (exceeded (refreshed found now) limits ≡ none)
        ↔ Room limits (length l) (length (daily found now.instant)) (tokens_on found now.year_day))
      hours
      (subst
        (λ l.
          (exceeded (refreshed found now) limits ≡ none)
          ↔ Room limits (length (refreshed found now).hourly_calls) (length l)
              (tokens_on found now.year_day))
        days
        (subst
          (λ z.
            (exceeded (refreshed found now) limits ≡ none)
            ↔ Room limits (length (refreshed found now).hourly_calls)
                (length (refreshed found now).daily_calls) z)
          (refreshed_tokens found now) (exceeded_iff (refreshed found now) limits)))

check_part_iff :
    (m : Map UsageRecord) (key : String) (limit : Option Limits) (now : Now)
    → ((check_part m key limit now).1 ≡ none) ↔ HasBudget limit key (m key) now
unfolding check_part refreshed
check_part_iff m key none now = ((λ _ limits e n. absurd (ground arith)), λ _. refl)
check_part_iff m key (some limits) now = elim (Bool-cases (key == "")) [
  | inl missing ↦
      ((λ _ l e n. absurd (n ((eq_iff key "").0 missing))), λ _. rw (missing, check_part) refl)
  | inr given ↦
      let inner = refreshed_iff (m key) limits now in
      (
        (λ h l e n.
            subst
              (λ x.
                Room x (length (hourly (m key) now.instant)) (length (daily (m key) now.instant))
                  (tokens_on (m key) now.year_day))
              (some-injective limits l e) (inner.0 (rw (given, check_part) at h))),
        λ h.
            rw (given, check_part)
              (inner.1 (h limits refl (λ same. ground (arith, eq_iff key "")))),
      )
]

check_and_record_parts :
    (t : Tracker) (subject session : String) (per_identity per_session : Option Limits) (now : Now)
    → ((check_and_record t subject session per_identity per_session now).1 ≡ none) ↔ (
        ((check_part t.identity subject per_identity now).1 ≡ none)
        × ((check_part t.sessions session per_session now).1 ≡ none))
unfolding check_and_record
check_and_record_parts t subject session per_identity per_session now =
    ((λ h. (ground arith, ground arith)), λ h. ground (arith, h.0, h.1))

-- A call is accepted exactly if there is room for it under the limits of its identity and under those
-- of its session, as far as a limit is set, is positive and has its key: fewer calls in the last hour,
-- fewer in the last day and fewer tokens of the day than the limit. A call that is accepted is put on
-- record once for each key with limits, and one that is refused for none: no other call is added to
-- what counts, and none is lost.
pub check_and_record_iff :
    (t : Tracker) (subject session k : String) (per_identity per_session : Option Limits)
    (now : Now)
    → let r = check_and_record t subject session per_identity per_session now in
      let passed = not (is_some r.1) in
      let to_identity = charge (passed && is_charged per_identity subject) subject k now.instant in
      let to_session = charge (passed && is_charged per_session session) session k now.instant in
      ((r.1 ≡ none) ↔ (
        HasBudget per_identity subject (t.identity subject) now
        × HasBudget per_session session (t.sessions session) now))
      × (hourly_of r.0.identity k now.instant ≡ hourly_of t.identity k now.instant ++ to_identity)
      × (daily_of r.0.identity k now.instant ≡ daily_of t.identity k now.instant ++ to_identity)
      × (hourly_of r.0.sessions k now.instant ≡ hourly_of t.sessions k now.instant ++ to_session)
      × (daily_of r.0.sessions k now.instant ≡ daily_of t.sessions k now.instant ++ to_session)
check_and_record_iff t subject session k per_identity per_session now =
    let parts = check_and_record_parts t subject session per_identity per_session now in
    let identity = check_part_iff t.identity subject per_identity now in
    let in_session = check_part_iff t.sessions session per_session now in
    let (hours, days, session_hours, session_days) =
      check_and_record_lem t subject session k per_identity per_session now in
    (
      (
        (λ h. let (a, b) = parts.0 h in (identity.0 a, in_session.0 b)),
        λ (a, b). parts.1 (identity.1 a, in_session.1 b),
      ),
      hours,
      days,
      session_hours,
      session_days,
    )
