-- ===== src/Controller/Budgets/Remaining.antt =====
-- The quota that pkg/controller/budget.go keeps.
use native.Mathlib.Nat.{le_refl}
use mathlib.Core.Path.{subst}
use nullfield.Times.{hour, day, trim, trim-trim}
use nullfield.Prelude.{
  sym, ◌⊎◌, suc, ◌≥ℤ◌, ap, add64, ltb, ◌||◌, if◌then◌else◌, ℕ, ◌<◌, ◌≡◌, refl, ◌∙◌, ◌≢◌, inl, inr,
  String, true, false, List, [], ◌∷◌, ◌++◌, Option, none, some, ◌==◌, eq_iff, eq_refl, arith,
  Bool-cases, length, ℤ, pos,
}
use nullfield.Prelude.Dict
use nullfield.Prelude.Dict.{Dict, lookup-put}
use nullfield.Budget.{Now}
use nullfield.Controller.Budgets.{
  StoreLimits, BudgetRecord, BudgetStore, BudgetAnswer, record_of, trim_budget, over_limit,
  check_key, count_in, record_in, check_session, check_identity_budget, check_store,
}

-- The calls of a key that count in a window at an instant; there are none of a key with no record.
abbrev pub hourly : Option BudgetRecord → ℕ → List ℕ
hourly none now = []
hourly (some rec) now = trim hour now rec.hourly_calls

abbrev pub daily : Option BudgetRecord → ℕ → List ℕ
daily none now = []
daily (some rec) now = trim day now rec.daily_calls

-- The tokens of a key that count on a day of the year: those of another day do not.
abbrev pub tokens_on : Option BudgetRecord → ℕ → ℤ
tokens_on none year_day = pos 0
tokens_on (some rec) year_day =
    if ltb year_day rec.last_reset_day || ltb rec.last_reset_day year_day
    then pos 0
    else rec.daily_tokens

-- Before the call there was room for it under the limits.
pub record HasRoom (limits : StoreLimits) (found : Option BudgetRecord) (now : Now) : Type 0 where
  pub hours : (n : ℕ) → limits.max_calls_per_hour ≡ pos n → length (hourly found now.instant) < n
  pub days : (n : ℕ) → limits.max_calls_per_day ≡ pos n → length (daily found now.instant) < n
  pub tokens :
      (n : ℕ)
      → limits.max_tokens_per_day ≡ pos (suc n)
      → (tokens_on found now.year_day ≥ℤ pos (suc n)) ≡ false

-- There was room for the call; and the key's record is what counted before the call, with the call
-- behind it and its tokens added.
pub record Within (limits : StoreLimits) (m m' : Dict BudgetRecord) (key : String) (tokens : ℤ)
    (now : Now) : Type 0 where
  pub rec : BudgetRecord
  pub kept : Dict.lookup key m' ≡ some rec
  pub hours : rec.hourly_calls ≡ hourly (Dict.lookup key m) now.instant ++ now.instant ∷ []
  pub days : rec.daily_calls ≡ daily (Dict.lookup key m) now.instant ++ now.instant ∷ []
  pub spent : rec.daily_tokens ≡ add64 (tokens_on (Dict.lookup key m) now.year_day) tokens
  pub room : HasRoom limits (Dict.lookup key m) now

-- A call without the key leaves the records as they are, and a call with it is counted.
abbrev pub Counts : StoreLimits → Dict BudgetRecord → Dict BudgetRecord → String → ℤ → Now → Type 0
Counts limits m m' key tokens now =
    ((key ≡ "") × (m' ≡ m)) ⊎ ((key ≢ "") × Within limits m m' key tokens now)

-- What a check finds in the record of a key: what counts at the instant
record Finds (found : Option BudgetRecord) (now : Now) (rec : BudgetRecord) : Type 0 where
  hours : rec.hourly_calls ≡ hourly found now.instant
  days : rec.daily_calls ≡ daily found now.instant
  tokens : rec.daily_tokens ≡ tokens_on found now.year_day

trim-once : (d now : ℕ) (ts : List ℕ) → trim d now (trim d now ts) ≡ trim d now ts
trim-once d now ts = trim-trim d now now ts (le_refl now)

refreshed : Option BudgetRecord → Now → BudgetRecord
refreshed found now = trim_budget (record_of found now) now

refreshed-Finds : (found : Option BudgetRecord) (now : Now) → Finds found now (refreshed found now)
unfolding refreshed record_of trim_budget trim
refreshed-Finds none now = record { hours = refl; days = refl; tokens = refl }
refreshed-Finds (some rec) now = record {
  hours = ground (arith, trim-once hour now.instant rec.hourly_calls);
  days = ground (arith, trim-once day now.instant rec.daily_calls);
  tokens = ground arith;
}

-- A record that is over no limit
record Below (limits : StoreLimits) (rec : BudgetRecord) : Type 0 where
  hours : (n : ℕ) → limits.max_calls_per_hour ≡ pos n → length rec.hourly_calls < n
  days : (n : ℕ) → limits.max_calls_per_day ≡ pos n → length rec.daily_calls < n
  tokens :
      (n : ℕ) → limits.max_tokens_per_day ≡ pos (suc n) → (rec.daily_tokens ≥ℤ pos (suc n)) ≡ false

over_limit-Below :
    (limits : StoreLimits) (rec : BudgetRecord) → over_limit limits rec ≡ none → Below limits rec
unfolding over_limit
over_limit-Below limits rec h = record {
  hours = λ n e. ground arith;
  days = λ n e. ground arith;
  tokens = λ n e. ground arith;
}

Below-HasRoom :
    (limits : StoreLimits) (found : Option BudgetRecord) (now : Now) (rec : BudgetRecord)
    → Finds found now rec
    → Below limits rec
    → HasRoom limits found now
Below-HasRoom limits found now rec finds below = record {
  hours = λ n e. subst (λ ts. length ts < n) finds.hours (below.hours n e);
  days = λ n e. subst (λ ts. length ts < n) finds.days (below.days n e);
  tokens = λ n e. subst (λ z. (z ≥ℤ pos (suc n)) ≡ false) finds.tokens (below.tokens n e);
}

named-eq-false : (key : String) → (key == "") ≡ false → key ≢ ""
named-eq-false key e same = ground (arith, eq_iff key "")

check_key-named :
    (limits : StoreLimits) (m : Dict BudgetRecord) (key : String) (now : Now)
    → (key == "") ≡ false
    → let rec = refreshed (Dict.lookup key m) now in
      check_key limits m key now ≡ (Dict.put key rec m, over_limit limits rec)
unfolding check_key refreshed
check_key-named limits m key now given = rw (given, check_key) refl

record_in-Within :
    (limits : StoreLimits) (m m' : Dict BudgetRecord) (key : String) (rec : BudgetRecord)
    (tokens : ℤ) (now : Now)
    → (key == "") ≡ false
    → Dict.lookup key m' ≡ some rec
    → Finds (Dict.lookup key m) now rec
    → Below limits rec
    → Within limits m (record_in m' key tokens now) key tokens now
unfolding record_in count_in
record_in-Within limits m m' key rec tokens now given is finds below =
    rw (given, record_in, is)
      (record {
        rec = count_in rec tokens now;
        kept = lookup-put key key (count_in rec tokens now) m' ∙ rw (eq_refl key) refl;
        hours = ap (λ ts. ts ++ now.instant ∷ []) finds.hours;
        days = ap (λ ts. ts ++ now.instant ∷ []) finds.days;
        spent = ap (λ z. add64 z tokens) finds.tokens;
        room = Below-HasRoom limits (Dict.lookup key m) now rec finds below;
      })

-- Both halves of an allowed call, in one map
check_key-Counts :
    (limits : StoreLimits) (m : Dict BudgetRecord) (key : String) (tokens : ℤ) (now : Now)
    → (check_key limits m key now).1 ≡ none
    → Counts limits m (record_in (check_key limits m key now).0 key tokens now) key tokens now
unfolding check_key record_in
check_key-Counts limits m key tokens now h = elim (Bool-cases (key == "")) [
  | inl empty' ↦ inl ((eq_iff key "").0 empty', rw (empty', check_key, record_in) refl)
  | inr given ↦
      let rec = refreshed (Dict.lookup key m) now in
      let same = check_key-named limits m key now given in
      inr (
        named-eq-false key given,
        subst (λ r. Within limits m (record_in r.0 key tokens now) key tokens now) (sym same)
            (record_in-Within limits m (Dict.put key rec m) key rec tokens now given
              (lookup-put key key rec m ∙ rw (eq_refl key) refl)
              (refreshed-Finds (Dict.lookup key m) now)
              (over_limit-Below limits rec (sym (ap (λ r. r.1) same) ∙ h))),
      )
]

false-ne-true : false ≢ true
false-ne-true e = ground arith

module _ (identity session : String) (tokens : ℤ) (now : Now) where
  -- An allowed call was refused by neither check, and leaves what both record.
  abbrev Passes :
      BudgetStore × BudgetAnswer
      → Dict BudgetRecord × Option String
      → Dict BudgetRecord × Option String
      → Type 0
  Passes r identities sessions =
      (identities.1 ≡ none)
      × (sessions.1 ≡ none)
      × (r.0.identity ≡ record_in identities.0 identity tokens now)
      × (r.0.sessions ≡ record_in sessions.0 session tokens now)

  check_session-Passes :
      (s : BudgetStore) (r : Dict BudgetRecord × Option String)
      → (check_session s identity session tokens now r).1.allowed ≡ true
      → Passes (check_session s identity session tokens now r) (s.identity, none) r
  unfolding check_session
  check_session-Passes s (sessions, some e) h = absurd (false-ne-true h)
  check_session-Passes s (sessions, none) h = (refl, refl, refl, refl)

  check_identity_budget-Passes :
      (s : BudgetStore) (r : Dict BudgetRecord × Option String)
      → (check_identity_budget s identity session tokens now r).1.allowed ≡ true
      → Passes
          (check_identity_budget s identity session tokens now r)
          r
          (check_key s.limits s.sessions session now)
  unfolding check_identity_budget
  check_identity_budget-Passes s (identities, some e) h = absurd (false-ne-true h)
  check_identity_budget-Passes s (identities, none) h =
      check_session-Passes (record s { identity = identities })
        (check_key s.limits s.sessions session now) h

-- Where the store allows a call, there was room for it, in the record of its identity and in that of
-- its session: fewer calls in the last hour, and in the last day, than the limits, and fewer tokens of
-- the day than a positive limit. Each record is then what counted before, with the calls that have
-- left the last hour and the last day dropped and the tokens of another day forgotten; the call is
-- behind the others, and its tokens are added (which wraps round at 64 bits). An identity or a session
-- that is not given changes no record.
pub check_store-Counts :
    (s : BudgetStore) (identity session : String) (tokens : ℤ) (now : Now)
    → (check_store s identity session tokens now).1.allowed ≡ true
    → let s' = (check_store s identity session tokens now).0 in
      Counts s.limits s.identity s'.identity identity tokens now
      × Counts s.limits s.sessions s'.sessions session tokens now
unfolding check_store
check_store-Counts s identity session tokens now h =
    let (identified, in_session, recorded, recorded') =
      check_identity_budget-Passes identity session tokens now s
        (check_key s.limits s.identity identity now) h in
    (
      subst (λ m. Counts s.limits s.identity m identity tokens now) (sym recorded)
          (check_key-Counts s.limits s.identity identity tokens now identified),
      subst (λ m. Counts s.limits s.sessions m session tokens now) (sym recorded')
          (check_key-Counts s.limits s.sessions session tokens now in_session),
    )
