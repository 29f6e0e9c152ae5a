-- ===== src/Budget/Atomic.antt =====
-- What one `CheckAndRecord` of pkg/budget/tracker.go does to the calls on record.
use native.Mathlib.Nat.{le_refl}
use mathlib.Core.List.{append-nil}
use mathlib.Core.Bool.{false≢true}
use nullfield.Prelude.{
  ℕ, ◌≤◌, ◌≡◌, ◌≢◌, refl, sym, inl, inr, String, Bool, true, false, ◌&&◌, List, [], ◌∷◌, ◌++◌,
  Option, none, some, ◌==◌, eq_iff, eq_refl, arith, if◌then◌else◌, length, pos, suc, Map,
  Bool-cases, not, is_some,
}
use nullfield.Times.{hour, day, trim, trim-trim, trim-append, trim-now}
use nullfield.Budget.{
  Now, UsageRecord, Tracker, Limits, trim_timestamps, get_or_create, exceeded, check_part,
  record_part, check_and_record,
}

-- The calls of a record, and of a key, that count at an instant.
abbrev pub hourly : Option UsageRecord → ℕ → List ℕ
hourly none now = []
hourly (some rec) now = trim hour now rec.hourly_calls

abbrev pub daily : Option UsageRecord → ℕ → List ℕ
daily none now = []
daily (some rec) now = trim day now rec.daily_calls

abbrev pub hourly_of : Map UsageRecord → String → ℕ → List ℕ
hourly_of m key now = hourly (m key) now

abbrev pub daily_of : Map UsageRecord → String → ℕ → List ℕ
daily_of m key now = daily (m key) now

-- A limit is charged where it is set and its key is given.
abbrev pub is_charged : Option Limits → String → Bool
is_charged none key = false
is_charged (some limits) key = if key == "" then false else true

trim-once : (d now : ℕ) (ts : List ℕ) → trim d now (trim d now ts) ≡ trim d now ts
trim-once d now ts = trim-trim d now now ts (le_refl now)

unfoldable pub refreshed : Option UsageRecord → Now → UsageRecord
refreshed found now = trim_timestamps (get_or_create found now) now

-- Trimming twice leaves what counts at the instant.
pub refreshed_calls :
    (found : Option UsageRecord) (now : Now)
    → ((refreshed found now).hourly_calls ≡ hourly found now.instant)
      × ((refreshed found now).daily_calls ≡ daily found now.instant)
unfolding refreshed get_or_create trim_timestamps trim
refreshed_calls none now = (refl, refl)
refreshed_calls (some rec) now =
    ground (
      arith,
      trim-once hour now.instant rec.hourly_calls,
      trim-once day now.instant rec.daily_calls,
    )

hourly_once :
    (found : Option UsageRecord) (now : ℕ)
    → (trim hour now (hourly found now) ≡ hourly found now)
      × (trim day now (daily found now) ≡ daily found now)
unfolding trim
hourly_once none now = (refl, refl)
hourly_once (some rec) now =
    (trim-once hour now rec.hourly_calls, trim-once day now rec.daily_calls)

-- One part of the check changes no count, in its own map.
check_part_calls :
    (m : Map UsageRecord) (key k : String) (limits : Option Limits) (now : Now)
    → let m' = (check_part m key limits now).0 in
      (hourly_of m' k now.instant ≡ hourly_of m k now.instant)
      × (daily_of m' k now.instant ≡ daily_of m k now.instant)
unfolding check_part refreshed
check_part_calls m key k none now = (refl, refl)
check_part_calls m key k (some limits) now =
    ground (arith, eq_iff key k, refreshed_calls (m key) now, hourly_once (m key) now.instant)

-- What a charge adds to the calls of `k`: the instant, for the key that is charged.
abbrev pub charge : Bool → String → String → ℕ → List ℕ
charge charged key k now = if charged && (key == k) then now ∷ [] else []

record_part_calls :
    (m : Map UsageRecord) (key k : String) (limits : Option Limits) (now : Now)
    → (is_charged limits key ≡ true → (rec : UsageRecord) × (m key ≡ some rec))
    → let m' = record_part m key limits now in
      let added = charge (is_charged limits key) key k now.instant in
      (hourly_of m' k now.instant ≡ hourly_of m k now.instant ++ added)
      × (daily_of m' k now.instant ≡ daily_of m k now.instant ++ added)
unfolding record_part
record_part_calls m key k none now known = (sym (append-nil _), sym (append-nil _))
record_part_calls m key k (some limits) now known = elim (Bool-cases (key == "")) [
  | inl e ↦ rw e (sym (append-nil _), sym (append-nil _))
  | inr e ↦
      let (rec, found) = known (rw e) in
      ground (
        arith,
        eq_iff key k,
        append-nil (hourly_of m k now.instant),
        append-nil (daily_of m k now.instant),
        trim-append hour now.instant rec.hourly_calls (now.instant ∷ []),
        trim-append day now.instant rec.daily_calls (now.instant ∷ []),
        trim-now hour now.instant (omega arith),
        trim-now day now.instant (omega arith),
      )
]

check_part_known :
    (m : Map UsageRecord) (key : String) (limits : Option Limits) (now : Now)
    → is_charged limits key ≡ true
    → (rec : UsageRecord) × ((check_part m key limits now).0 key ≡ some rec)
unfolding check_part refreshed
check_part_known m key none now c = absurd (false≢true c)
check_part_known m key (some limits) now c = (refreshed (m key) now, ground (arith, eq_refl key))

-- Both halves of an accepted call, in one map.
charged_calls :
    (m : Map UsageRecord) (key k : String) (limits : Option Limits) (now : Now)
    → let m' = record_part (check_part m key limits now).0 key limits now in
      let added = charge (is_charged limits key) key k now.instant in
      (hourly_of m' k now.instant ≡ hourly_of m k now.instant ++ added)
      × (daily_of m' k now.instant ≡ daily_of m k now.instant ++ added)
charged_calls m key k limits now =
    let (h, d) =
      record_part_calls (check_part m key limits now).0 key k limits now
        (check_part_known m key limits now) in
    let (h', d') = check_part_calls m key k limits now in (rw h' at h, rw d' at d)

-- A call that gets no error is put on record once for each charged key, and a call that gets one is
-- put on record for none: no other count changes.
pub check_and_record_lem :
    (t : Tracker) (subject session k : String) (per_identity per_session : Option Limits)
    (now : Now)
    → let r = check_and_record t subject session per_identity per_session now in
      let passed = not (is_some r.1) in
      let to_identity = charge (passed && is_charged per_identity subject) subject k now.instant in
      let to_session = charge (passed && is_charged per_session session) session k now.instant in
      (hourly_of r.0.identity k now.instant ≡ hourly_of t.identity k now.instant ++ to_identity)
      × (daily_of r.0.identity k now.instant ≡ daily_of t.identity k now.instant ++ to_identity)
      × (hourly_of r.0.sessions k now.instant ≡ hourly_of t.sessions k now.instant ++ to_session)
      × (daily_of r.0.sessions k now.instant ≡ daily_of t.sessions k now.instant ++ to_session)
unfolding check_and_record
check_and_record_lem t subject session k per_identity per_session now = ground (
  arith,
  check_part_calls t.identity subject k per_identity now,
  check_part_calls t.sessions session k per_session now,
  charged_calls t.identity subject k per_identity now,
  charged_calls t.sessions session k per_session now,
  append-nil (hourly_of t.identity k now.instant),
  append-nil (daily_of t.identity k now.instant),
  append-nil (hourly_of t.sessions k now.instant),
  append-nil (daily_of t.sessions k now.instant),
)

exceeded-below :
    (rec : UsageRecord) (limits : Limits) (n : ℕ)
    → limits.max_calls_per_hour ≡ pos (suc n)
    → exceeded rec limits ≡ none
    → length rec.hourly_calls ≤ n
unfolding exceeded
exceeded-below rec limits n limit e = ground arith

check_part-exceeded :
    (m : Map UsageRecord) (key : String) (limits : Limits) (now : Now)
    → key ≢ ""
    → (check_part m key (some limits) now).1 ≡ exceeded (refreshed (m key) now) limits
unfolding check_part refreshed
check_part-exceeded m key limits now named = ground (arith, eq_iff key "")

-- An identity that passes a check of its hourly limit had made fewer calls in the hour.
pub check_and_record_below :
    (t : Tracker) (subject session : String) (limits : Limits) (per_session : Option Limits)
    (now : Now) (n : ℕ)
    → subject ≢ ""
    → limits.max_calls_per_hour ≡ pos (suc n)
    → (check_and_record t subject session (some limits) per_session now).1 ≡ none
    → length (hourly_of t.identity subject now.instant) ≤ n
unfolding check_and_record
check_and_record_below t subject session limits per_session now n named limit pass =
    rw (← (refreshed_calls (t.identity subject) now).0) (
      exceeded-below (refreshed (t.identity subject) now) limits n limit
        (ground (arith, check_part-exceeded t.identity subject limits now named)))
