-- ===== src/Controller/Budgets.antt =====
-- pkg/controller/budget.go: the quotas that the proxies of a cluster share. The instant and the day of
-- the year that `time.Now` gives are arguments.
pub mod Remaining
use nullfield.Prelude.{
  ℕ, ◌+◌, ◌-◌, ◌%◌, ◌^◌, String, Bool, true, false, ◌&&◌, ◌||◌, List, [], ◌∷◌, ◌++◌, map, Option,
  none, some, ◌==◌, if◌then◌else◌, ltb, leb, length, ℤ, pos, negsuc, is_positive, ge_count, ◌≥ℤ◌,
  add64, of_bits, to_bits, decimal, decimal_int, ◌+++◌,
}
use nullfield.Prelude.Dict
use nullfield.Prelude.Dict.{Dict}
use nullfield.Times.{hour, day, trim}
use nullfield.Budget.{Now}

-- `BudgetLimits` of the store
pub record StoreLimits : Type 0 where
  pub max_calls_per_hour : ℤ
  pub max_calls_per_day : ℤ
  pub max_tokens_per_day : ℤ

-- `budgetRecord`
pub record BudgetRecord : Type 0 where
  pub hourly_calls : List ℕ
  pub daily_calls : List ℕ
  pub daily_tokens : ℤ
  pub last_reset_day : ℕ

-- `BudgetUsage`
pub record BudgetUsage : Type 0 where
  pub identity : String
  pub hourly_calls : ℕ
  pub daily_calls : ℕ
  pub daily_tokens : ℤ
  pub limits : StoreLimits

-- `BudgetStore`
pub record BudgetStore : Type 0 where
  pub identity : Dict BudgetRecord
  pub sessions : Dict BudgetRecord
  pub limits : StoreLimits

abbrev pub limit_or : ℤ → ℕ → ℤ
limit_or z fallback = if is_positive z then z else pos fallback

-- `NewBudgetStore`
unfoldable pub new_budget_store : StoreLimits → BudgetStore
new_budget_store limits = record {
  identity = [];
  sessions = [];
  limits = record {
    max_calls_per_hour = limit_or limits.max_calls_per_hour 100;
    max_calls_per_day = limit_or limits.max_calls_per_day 1_000;
    max_tokens_per_day = limit_or limits.max_tokens_per_day 500_000;
  };
}

-- `trimBudgetTimestamps`
unfoldable pub trim_budget : BudgetRecord → Now → BudgetRecord
trim_budget rec now = record rec {
  hourly_calls = trim hour now.instant rec.hourly_calls;
  daily_calls = trim day now.instant rec.daily_calls;
}

-- `getOrCreate`, on what the map holds for the key; the caller stores the result.
unfoldable pub record_of : Option BudgetRecord → Now → BudgetRecord
unfolding trim_budget
record_of none now = record {
  hourly_calls = [];
  daily_calls = [];
  daily_tokens = pos 0;
  last_reset_day = now.year_day;
}
record_of (some found) now =
    let rec = trim_budget found now in
    if ltb now.year_day rec.last_reset_day || ltb rec.last_reset_day now.year_day
    then record rec { daily_tokens = pos 0; last_reset_day = now.year_day }
    else rec

abbrev pub reached : String → String → String → String
reached label count limit = label +++ " limit reached (" +++ count +++ "/" +++ limit +++ ")"

-- `checkLimits` on a record that it has trimmed
unfoldable pub over_limit : StoreLimits → BudgetRecord → Option String
over_limit limits rec =
    if ge_count (length rec.hourly_calls) limits.max_calls_per_hour
    then some (
        reached "hourly call" (decimal (length rec.hourly_calls))
          (decimal_int limits.max_calls_per_hour))
    else if ge_count (length rec.daily_calls) limits.max_calls_per_day
    then some (
        reached "daily call" (decimal (length rec.daily_calls))
          (decimal_int limits.max_calls_per_day))
    else if is_positive limits.max_tokens_per_day && rec.daily_tokens ≥ℤ limits.max_tokens_per_day
    then some (
        reached "daily token" (decimal_int rec.daily_tokens)
          (decimal_int limits.max_tokens_per_day))
    else none

-- The check of one map: the map with the key's record, trimmed, and what is wrong with it
unfoldable pub check_key :
    StoreLimits → Dict BudgetRecord → String → Now → Dict BudgetRecord × Option String
unfolding record_of trim_budget over_limit
check_key limits m key now =
    if key == ""
    then (m, none)
    else let rec = trim_budget (record_of (Dict.lookup key m) now) now in
      (Dict.put key rec m, over_limit limits rec)

-- A call on a record
unfoldable pub count_in : BudgetRecord → ℤ → Now → BudgetRecord
count_in rec tokens now = record rec {
  hourly_calls = rec.hourly_calls ++ now.instant ∷ [];
  daily_calls = rec.daily_calls ++ now.instant ∷ [];
  daily_tokens = add64 rec.daily_tokens tokens;
}

-- The recording of a call in one map, which `check_key` has given a record for the key
unfoldable pub record_in : Dict BudgetRecord → String → ℤ → Now → Dict BudgetRecord
unfolding count_in
record_in m key tokens now =
    if key == ""
    then m
    else elim (Dict.lookup key m) [ none ↦ m | some rec ↦ Dict.put key (count_in rec tokens now) m ]

-- `a - b` on `int64`
unfoldable pub sub64 : ℤ → ℤ → ℤ
sub64 a b = of_bits ((to_bits a + (2 ^ 64 - to_bits b)) % 2 ^ 64)

-- What `Check` answers
pub record BudgetAnswer : Type 0 where
  pub allowed : Bool
  pub reason : String
  pub remain_calls : ℤ
  pub remain_tokens : ℤ

abbrev pub refused : String → BudgetAnswer
refused reason = record {
  allowed = false;
  reason = reason;
  remain_calls = pos 0;
  remain_tokens = pos 0;
}

-- What is left to an identity that is named, and the limits otherwise
unfoldable pub remaining : StoreLimits → Dict BudgetRecord → String → BudgetAnswer
unfolding sub64
remaining limits m identity =
    let whole : BudgetAnswer = record {
      allowed = true;
      reason = "";
      remain_calls = limits.max_calls_per_hour;
      remain_tokens = limits.max_tokens_per_day;
    } in
    if identity == "" then whole else elim (Dict.lookup identity m) [
      | none ↦ whole
      | some rec ↦ record whole {
        remain_calls = sub64 limits.max_calls_per_hour (pos (length rec.hourly_calls));
        remain_tokens = sub64 limits.max_tokens_per_day rec.daily_tokens;
      }
    ]

unfoldable pub check_session :
    BudgetStore
    → String
    → String
    → ℤ
    → Now
    → Dict BudgetRecord × Option String
    → BudgetStore × BudgetAnswer
unfolding record_in remaining
check_session s identity session tokens now (sessions, some e) =
    (record s { sessions = sessions }, refused ("session budget: " +++ e))
check_session s identity session tokens now (sessions, none) =
    let recorded = record_in s.identity identity tokens now in
    (
      record s { identity = recorded; sessions = record_in sessions session tokens now },
      remaining s.limits recorded identity,
    )

unfoldable pub check_identity_budget :
    BudgetStore
    → String
    → String
    → ℤ
    → Now
    → Dict BudgetRecord × Option String
    → BudgetStore × BudgetAnswer
unfolding check_session check_key
check_identity_budget s identity session tokens now (identities, some e) =
    (record s { identity = identities }, refused ("identity budget: " +++ e))
check_identity_budget s identity session tokens now (identities, none) =
    check_session (record s { identity = identities }) identity session tokens now
      (check_key s.limits s.sessions session now)

-- `Check`
unfoldable pub check_store : BudgetStore → String → String → ℤ → Now → BudgetStore × BudgetAnswer
unfolding check_identity_budget check_key
check_store s identity session tokens now =
    check_identity_budget s identity session tokens now (check_key s.limits s.identity identity now)

-- `GetUsage`, with the store whose records it has trimmed
unfoldable pub store_usage : BudgetStore → Now → BudgetStore × List BudgetUsage
unfolding trim_budget
store_usage s now =
    let trimmed = map (λ (e : String × BudgetRecord). (e.0, trim_budget e.1 now)) s.identity in
    (
      record s { identity = trimmed },
      map
          (λ (e : String × BudgetRecord). record {
            identity = e.0;
            hourly_calls = length e.1.hourly_calls;
            daily_calls = length e.1.daily_calls;
            daily_tokens = e.1.daily_tokens;
            limits = s.limits;
          })
          trimmed,
    )

-- The last of the calls is older than a day, or there is none.
unfoldable pub is_idle : ℕ → List ℕ → Bool
is_idle now [] = true
is_idle now (t ∷ []) = ltb (t + day) now
is_idle now (t ∷ u ∷ ts) = is_idle now (u ∷ ts)

unfoldable pub drop_idle : ℕ → Dict BudgetRecord → Dict BudgetRecord
unfolding is_idle
drop_idle now [] = []
drop_idle now ((k, rec) ∷ m) =
    let rest = drop_idle now m in if is_idle now rec.daily_calls then rest else (k, rec) ∷ rest

-- `Sweep`
unfoldable pub sweep_store : BudgetStore → ℕ → BudgetStore
unfolding drop_idle
sweep_store s now = record s {
  identity = drop_idle now s.identity;
  sessions = drop_idle now s.sessions;
}
