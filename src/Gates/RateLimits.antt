-- ===== src/Gates/RateLimits.antt =====
-- pkg/gates/gates.go: `Rates`, the sliding minute behind maxCallsPerMinute.
pub mod PerMinute
use Prim.Native.Char.{nul}
use Prim.Native.String
use nullfield.Prelude.{
  ℕ, String, List, [], ◌∷◌, ◌++◌, Option, none, some, ◌+++◌, if◌then◌else◌, length, ℤ, ge_count,
  Map, empty, insert,
}
use nullfield.Times.{minute, trim}

-- `Rates`
pub record Rates : Type 0 where
  pub calls : Map (List ℕ)

unfoldable pub new_rates : Rates
new_rates = record { calls = empty }

-- `rateLimit`
pub record RateLimit : Type 0 where
  pub scope : String
  pub max : ℤ

-- `l.scope + "\x00" + subject`
abbrev pub key_of : RateLimit → String → String
key_of l subject = l.scope +++ String.◌∷◌ nul subject

abbrev pub stamps_of : Option (List ℕ) → List ℕ
stamps_of none = []
stamps_of (some ts) = ts

abbrev pub Taken : Type 0
Taken = Map (List ℕ) × Option RateLimit

-- The first loop of `take`: the windows, trimmed up to the first limit that is full.
unfoldable pub find_full : List RateLimit → String → ℕ → Map (List ℕ) → Taken
find_full [] subject now m = (m, none)
find_full (l ∷ limits) subject now m =
    let live = trim minute now (stamps_of (m (key_of l subject))) in
    let m' = insert (key_of l subject) live m in
    let rest = find_full limits subject now m' in
    if ge_count (length live) l.max then (m', some l) else rest

-- The second loop of `take`.
unfoldable pub record_all : List RateLimit → String → ℕ → Map (List ℕ) → Map (List ℕ)
record_all [] subject now m = m
record_all (l ∷ limits) subject now m =
    record_all limits subject now
      (insert (key_of l subject) (stamps_of (m (key_of l subject)) ++ now ∷ []) m)

-- `take`: the limit that is full, if any.
unfoldable pub take : Rates → String → List RateLimit → ℕ → Rates × Option RateLimit
take r subject limits now =
    let found = find_full limits subject now r.calls in
    (
      record {
        calls = elim found.1 [ some full ↦ found.0 | none ↦ record_all limits subject now found.0 ];
      },
      found.1,
    )
