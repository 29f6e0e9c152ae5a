-- ===== src/Times.antt =====
-- Instants and sliding windows. An instant is a count of nanoseconds since an origin before every
-- instant that the program reads; it is an argument of each operation that calls `time.Now`.
-- `t.After(now.Add(-d))` is written `now < t + d`, since `-` on ℕ stops at 0.
pub mod Sliding
use nullfield.Prelude.{
  ℕ, suc, ◌+◌, ◌*◌, ◌≤◌, ◌<◌, ◌≡◌, refl, Bool, List, [], ◌∷◌, ◌++◌, arith, ltb, if◌then◌else◌,
  length, ℤ, pos, negsuc,
}

abbrev pub second : ℕ
second = 1_000_000_000

abbrev pub minute : ℕ
minute = 60 * second

abbrev pub hour : ℕ
hour = 60 * minute

abbrev pub day : ℕ
day = 24 * hour

-- `now.Sub(started) > d`
abbrev pub elapsed_gt : ℕ → ℕ → ℤ → Bool
elapsed_gt now started (pos d) = ltb (started + d) now
elapsed_gt now started (negsuc d) = ltb started (now + suc d)

-- The loop that keeps the instants after `now - d`, which several trackers share.
unfoldable pub trim : ℕ → ℕ → List ℕ → List ℕ
trim d now [] = []
trim d now (t ∷ ts) = let rest = trim d now ts in if ltb now (t + d) then t ∷ rest else rest

pub length-trim-le : (d now : ℕ) (ts : List ℕ) → length (trim d now ts) ≤ length ts
unfolding trim
length-trim-le d now [] = omega arith
length-trim-le d now (t ∷ ts) = ground (arith, length-trim-le d now ts)

-- A later look at the window finds the same, whether or not it was trimmed before.
pub trim-trim :
    (d now later : ℕ) (ts : List ℕ) → now ≤ later → trim d later (trim d now ts) ≡ trim d later ts
unfolding trim
trim-trim d now later [] h = refl
trim-trim d now later (t ∷ ts) h = ground (arith, trim-trim d now later ts h)

pub trim-append :
    (d now : ℕ) (ts us : List ℕ) → trim d now (ts ++ us) ≡ trim d now ts ++ trim d now us
unfolding trim
trim-append d now [] us = refl
trim-append d now (t ∷ ts) us = ground (arith, trim-append d now ts us)

-- An instant that is now is in every window of positive length.
pub trim-now : (d now : ℕ) → 0 < d → trim d now (now ∷ []) ≡ now ∷ []
unfolding trim
trim-now d now h = ground arith
