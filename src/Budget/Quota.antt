-- ===== src/Budget/Quota.antt =====
-- The calls of an identity that pkg/budget/tracker.go lets through over time.
use nullfield.Prelude.{
  ℕ, suc, ◌≤◌, ◌≡◌, refl, sym, ◌≢◌, ◌⊎◌, inl, inr, String, not, ◌&&◌, List, [], ◌∷◌, ◌++◌, Option,
  none, some, ◌==◌, eq_iff, arith, length, pos, Bool-cases, Option-cases, All-unit, is_some,
}
use nullfield.Times.{hour, trim, trim-trim}
use nullfield.Times.Sliding.{Sliding, log, IsOrdered, log-bounded}
use nullfield.Budget.{Now, UsageRecord, Tracker, Limits, new, check_and_record}
use nullfield.Budget.Atomic.{
  hourly_of, charge, is_charged, hourly, check_and_record_below, check_and_record_lem,
}

-- A call, and when it is made.
pub record Call : Type 0 where
  pub subject : String
  pub session : String
  pub per_session : Option Limits
  pub now : Now

module _ (limits : Limits) where
  pub check : Tracker → Call → Tracker × Option String
  check t c = check_and_record t c.subject c.session (some limits) c.per_session c.now

  -- The instant of the call, if it passes and is made by `id`.
  pub added : String → Tracker → Call → List ℕ
  added id t c =
      charge (not (is_some (check t c).1) && is_charged (some limits) c.subject) c.subject id
        c.now.instant

pub hourly-later :
    (found : Option UsageRecord) (now later : ℕ)
    → now ≤ later
    → hourly found later ≡ trim hour later (hourly found now)
unfolding trim
hourly-later none now later h = refl
hourly-later (some rec) now later h = sym (trim-trim hour now later rec.hourly_calls h)

pub check-hourly :
    (limits : Limits) (id : String) (t : Tracker) (c : Call)
    → hourly_of (check limits t c).0.identity id c.now.instant
      ≡ hourly_of t.identity id c.now.instant ++ added limits id t c
unfolding check added
check-hourly limits id t c =
    (check_and_record_lem t c.subject c.session id (some limits) c.per_session c.now).0

-- The calls of `id` in an hour, as the tracker keeps them.
unfoldable pub hourly_window : Limits → String → Sliding Tracker Call hour
hourly_window limits id = record {
  view = λ t now. hourly_of t.identity id now;
  instant = λ c. c.now.instant;
  step = λ t c. (check limits t c).0;
  added = added limits id;
  view-later = λ t now later h. hourly-later (t.identity id) now later h;
  view-step = check-hourly limits id;
}

module _ (limits : Limits) (id : String) (n : ℕ) (named : id ≢ "")
    (limit : limits.max_calls_per_hour ≡ pos (suc n)) where
  -- A call is added only where there is room for it.
  added_room :
      (t : Tracker) (c : Call)
      → (added limits id t c ≡ [])
        ⊎ ((added limits id t c ≡ c.now.instant ∷ [])
            × (length (hourly_of t.identity id c.now.instant) ≤ n))
  unfolding check added
  added_room t c = elim (Bool-cases (c.subject == id)) [
    | inr other ↦ inl (ground arith)
    | inl same ↦ elim (Option-cases (check limits t c).1) [
      | inr (e, refused) ↦ inl (ground arith)
      | inl passed ↦
          let own : c.subject ≡ id = (eq_iff c.subject id).0 same in
          inr (
            ground (arith, eq_iff c.subject ""),
            rw (← own) (
                check_and_record_below t c.subject c.session limits c.per_session c.now n
                  (rw own named) limit passed),
          )
    ]
  ]

-- The instants at which calls of `id` pass.
pub passed_calls : Limits → String → List Call → Tracker → List ℕ
passed_calls limits id calls t = log (hourly_window limits id) calls t

-- Whatever the calls are, with any subjects, sessions and session limits: under an hourly limit of
-- `n + 1` calls for each identity, at most `n + 1` calls of one identity pass in the hour up to
-- `later`, if the clock does not run backwards.
pub hourly_calls-le :
    (limits : Limits) (id : String) (n start later : ℕ) (calls : List Call)
    → id ≢ ""
    → limits.max_calls_per_hour ≡ pos (suc n)
    → IsOrdered (hourly_window limits id) start calls later
    → length (trim hour later (passed_calls limits id calls new)) ≤ suc n
unfolding passed_calls hourly_window new trim
hourly_calls-le limits id n start later calls named limit o =
    log-bounded (hourly_window limits id) (λ _. Unit) n start later calls new
      (λ t c _. added_room limits id n named limit t c) (All-unit calls) o (λ later' h. refl)
      (omega arith)
