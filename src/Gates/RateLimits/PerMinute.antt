-- ===== src/Gates/RateLimits/PerMinute.antt =====
-- What `take` of pkg/gates/gates.go admits in a minute.
use native.Mathlib.Nat.{le_refl}
use mathlib.Core.Path.{subst}
use mathlib.Core.List.{append-nil, append_assoc}
use nullfield.Prelude.{
  ℕ, suc, ◌≤◌, ◌≡◌, refl, sym, ◌∙◌, ap, ◌⊎◌, inl, inr, String, false, List, [], ◌∷◌, ◌++◌, none,
  ◌==◌, eq_iff, arith, if◌then◌else◌, length, ℤ, pos, ge_count, Map, insert, Bool-cases,
  Option-cases, All, is_some,
}
use nullfield.Times.{minute, trim, trim-trim, trim-append, trim-now}
use nullfield.Times.Sliding.{Sliding, log, IsOrdered, log-bounded}
use nullfield.Gates.RateLimits.{
  Rates, new_rates, RateLimit, key_of, stamps_of, find_full, record_all, take,
}

-- The calls under a key that count at an instant.
abbrev pub live : Map (List ℕ) → String → ℕ → List ℕ
live m k now = trim minute now (stamps_of (m k))

-- One instant for each limit that is kept under the key `k`.
unfoldable pub stamps : String → List RateLimit → String → ℕ → List ℕ
stamps k [] subject now = []
stamps k (l ∷ limits) subject now =
    (if key_of l subject == k then now ∷ [] else []) ++ stamps k limits subject now

trim-once : (now : ℕ) (ts : List ℕ) → trim minute now (trim minute now ts) ≡ trim minute now ts
trim-once now ts = trim-trim minute now now ts (le_refl now)

live-insert_trim :
    (m : Map (List ℕ)) (j k : String) (now : ℕ)
    → live (insert j (live m j now) m) k now ≡ live m k now
live-insert_trim m j k now = ground (arith, eq_iff j k, trim-once now (stamps_of (m k)))

find_full-live :
    (limits : List RateLimit) (subject k : String) (now : ℕ) (m : Map (List ℕ))
    → live (find_full limits subject now m).0 k now ≡ live m k now
unfolding find_full
find_full-live [] subject k now m = refl
find_full-live (l ∷ limits) subject k now m =
    let j = key_of l subject in
    let m' = insert j (live m j now) m in
    elim (Bool-cases (ge_count (length (live m j now)) l.max)) [
      | inl full ↦ rw full (live-insert_trim m j k now)
      | inr room ↦ rw room (find_full-live limits subject k now m' ∙ live-insert_trim m j k now)
    ]

record_all-live :
    (limits : List RateLimit) (subject k : String) (now : ℕ) (m : Map (List ℕ))
    → live (record_all limits subject now m) k now ≡ live m k now ++ stamps k limits subject now
unfolding record_all stamps
record_all-live [] subject k now m = sym (append-nil (live m k now))
record_all-live (l ∷ limits) subject k now m =
    let j = key_of l subject in
    let added = stamps_of (m j) ++ now ∷ [] in
    record_all-live limits subject k now (insert j added m)
    ∙ ap (λ xs. xs ++ stamps k limits subject now) (charged j)
    ∙ append_assoc (live m k now) (if j == k then now ∷ [] else []) (stamps k limits subject now)
  where
    charged :
        (j : String)
        → live (insert j (stamps_of (m j) ++ now ∷ []) m) k now
          ≡ live m k now ++ (if j == k then now ∷ [] else [])
    charged j = ground (
      arith,
      eq_iff j k,
      append-nil (live m k now),
      trim-append minute now (stamps_of (m k)) (now ∷ []),
      trim-now minute now (omega arith),
    )

-- A call that every limit has room for is counted once for each limit, and a call that any limit
-- refuses is counted for none: no other window changes.
pub take_lem :
    (r : Rates) (subject k : String) (limits : List RateLimit) (now : ℕ)
    → let (r', full) = take r subject limits now in
      live r'.calls k now
      ≡ live r.calls k now ++ (if is_some full then [] else stamps k limits subject now)
unfolding take
take_lem r subject k limits now =
    let found = find_full limits subject now r.calls in
    ground (
      arith,
      find_full-live limits subject k now r.calls,
      record_all-live limits subject k now found.0,
      append-nil (live r.calls k now),
    )

-- Every limit kept under `k` has the bound `n + 1`, and there is at most one.
pub record Fits (k : String) (n : ℕ) (subject : String) (limits : List RateLimit) : Type 0 where
  pub bound : All (λ l. key_of l subject ≡ k → l.max ≡ pos (suc n)) limits
  pub once : (now : ℕ) → length (stamps k limits subject now) ≤ 1

ge_count-below : (z : ℤ) (count n : ℕ) → z ≡ pos (suc n) → ge_count count z ≡ false → count ≤ n
ge_count-below z count n e h = ground arith

find_full_room :
    (limits : List RateLimit) (subject k : String) (n now : ℕ) (m : Map (List ℕ))
    → All (λ l. key_of l subject ≡ k → l.max ≡ pos (suc n)) limits
    → (find_full limits subject now m).1 ≡ none
    → (stamps k limits subject now ≡ []) ⊎ (length (live m k now) ≤ n)
unfolding find_full stamps
find_full_room [] subject k n now m h e = inl refl
find_full_room (l ∷ limits) subject k n now m h e =
    let j = key_of l subject in
    let m' = insert j (live m j now) m in
    elim (Bool-cases (ge_count (length (live m j now)) l.max)) [
      | inl full ↦ ground arith
      | inr room ↦ elim (Bool-cases (j == k)) [
        | inl same ↦ inr (here ((eq_iff j k).0 same) room)
        | inr other ↦ rw other (
            rw (← live-insert_trim m j k now)
              (find_full_room limits subject k n now m' h.1 (rw (room, find_full) at e)))
      ]
    ]
  where
    here :
        key_of l subject ≡ k
        → ge_count (length (live m (key_of l subject) now)) l.max ≡ false
        → length (live m k now) ≤ n
    here same room =
        subst (λ j. length (live m j now) ≤ n) same (ge_count-below l.max _ n (h.0 same) room)

-- One `take`: who asks, for which limits, and when.
pub record Request : Type 0 where
  pub subject : String
  pub limits : List RateLimit
  pub now : ℕ

-- The instants that a request puts under the key `k`.
abbrev pub passed : String → Rates → Request → List ℕ
passed k r c =
    if is_some (take r c.subject c.limits c.now).1 then [] else stamps k c.limits c.subject c.now

unfoldable pub minute_window : String → Sliding Rates Request minute
minute_window k = record {
  view = λ r now. live r.calls k now;
  instant = λ c. c.now;
  step = λ r c. (take r c.subject c.limits c.now).0;
  added = passed k;
  view-later = λ r now later h. sym (trim-trim minute now later (stamps_of (r.calls k)) h);
  view-step = λ r c. take_lem r c.subject k c.limits c.now;
}

stamps_short :
    (k : String) (limits : List RateLimit) (subject : String) (now : ℕ)
    → length (stamps k limits subject now) ≤ 1
    → (stamps k limits subject now ≡ []) ⊎ (stamps k limits subject now ≡ now ∷ [])
unfolding stamps
stamps_short k [] subject now h = inl refl
stamps_short k (l ∷ limits) subject now h = elim (Bool-cases (key_of l subject == k)) [
  | inl same ↦
      inr (
        rw same
          (ap (λ xs. now ∷ xs) (empty_of_length (stamps k limits subject now) (ground arith))))
  | inr other ↦ rw other (stamps_short k limits subject now (ground arith))
]
  where
    empty_of_length : (xs : List ℕ) → length xs ≤ 0 → xs ≡ []
    empty_of_length [] e = refl
    empty_of_length (x ∷ xs) e = absurd (omega arith)

passed_room :
    (k : String) (n : ℕ) (r : Rates) (c : Request)
    → Fits k n c.subject c.limits
    → (passed k r c ≡ []) ⊎ ((passed k r c ≡ c.now ∷ []) × (length (live r.calls k c.now) ≤ n))
unfolding take
passed_room k n r c f = elim (Option-cases (find_full c.limits c.subject c.now r.calls).1) [
  | inr (full, e) ↦ inl (ground arith)
  | inl e ↦ elim (stamps_short k c.limits c.subject c.now (f.once c.now)) [
    | inl nothing ↦ inl (ground arith)
    | inr one ↦ elim (find_full_room c.limits c.subject k n c.now r.calls f.bound e) [
      | inl nothing ↦ inl (ground arith)
      | inr room ↦ inr (ground arith, room)
    ]
  ]
]

-- The instants of the requests that pass under the key `k`.
pub passed_calls : String → List Request → Rates → List ℕ
passed_calls k requests r = log (minute_window k) requests r

-- Where every request has at most one limit under the key `k`, of `n + 1` calls a minute, at most
-- `n + 1` requests pass under that key in the minute up to `later`, however they are mixed with
-- other limits and subjects, if the clock does not run backwards.
pub minute_calls-le :
    (k : String) (n start later : ℕ) (requests : List Request)
    → All (λ c. Fits k n c.subject c.limits) requests
    → IsOrdered (minute_window k) start requests later
    → length (trim minute later (passed_calls k requests new_rates)) ≤ suc n
unfolding passed_calls minute_window new_rates trim
minute_calls-le k n start later requests fits o =
    log-bounded (minute_window k) (λ c. Fits k n c.subject c.limits) n start later requests
      new_rates (passed_room k n) fits o (λ later' h. refl) (omega arith)
