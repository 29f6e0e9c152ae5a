-- ===== src/Controller/Events/Ring.antt =====
-- What the ring of pkg/controller/events.go holds: the latest of what was added.
use native.Mathlib.Nat.{mod-eq_of_lt, mod-eq-sub-mod}
use nullfield.Prelude.{
  ℕ, zero, suc, ◌+◌, ◌-◌, ◌%◌, ◌≤◌, ◌<◌, ◌≡◌, ◌≢◌, refl, ◌∙◌, ◌⊎◌, inl, inr, List, [], ◌∷◌, some,
  ltb, ℤ, pos, negsuc, get_elem?, length, arith, Bool-cases,
}
use nullfield.Controller.Events.{
  AuditEvent, EventBuffer, events_of, new_event_buffer, store, stamped, add_event, nth_latest,
}

index_value :
    (p n i : ℕ)
    → p < n
    → i < n
    → ((i < p) × ((p + n - 1 - i) % n ≡ p - 1 - i))
      ⊎ ((p ≤ i) × ((p + n - 1 - i) % n ≡ p + n - 1 - i))
index_value p n i inside below = elim (Bool-cases (ltb i p)) [
  | inl earlier ↦
      let i<p : i < p = ground arith in
      inl (
        i<p,
        mod-eq-sub-mod (omega arith)
            ∙ (mod-eq_of_lt {n = p + n - 1 - i - n} (omega arith) ∙ omega arith),
      )
  | inr later ↦ let p≤i : p ≤ i = ground arith in inr (p≤i, mod-eq_of_lt (omega arith))
]

next_value :
    (p n : ℕ) → p < n → ((p + 1 < n) × ((p + 1) % n ≡ p + 1)) ⊎ ((p + 1 ≡ n) × ((p + 1) % n ≡ 0))
next_value p n inside = elim (Bool-cases (ltb (p + 1) n)) [
  | inl room ↦ let below : p + 1 < n = ground arith in inl (below, mod-eq_of_lt below)
  | inr full ↦
      let last : p + 1 ≡ n = ground arith in
      inr (
        last,
        mod-eq-sub-mod (omega arith) ∙ (mod-eq_of_lt {n = p + 1 - n} (omega arith) ∙ omega arith),
      )
]

next-lt : (p n : ℕ) → p < n → (p + 1) % n < n
next-lt p n inside = omega (arith, next_value p n inside)

latest_slot : (p n : ℕ) → p < n → ((p + 1) % n + n - 1 - 0) % n ≡ p
latest_slot p n inside =
    let next_inside = next-lt p n inside in
    omega (arith, next_value p n inside, index_value ((p + 1) % n) n 0 next_inside (omega arith))

earlier_slot :
    (p n i : ℕ)
    → p < n
    → suc i < n
    → (((p + 1) % n + n - 1 - suc i) % n ≡ (p + n - 1 - i) % n) × ((p + n - 1 - i) % n ≢ p)
earlier_slot p n i inside below =
    let next_inside = next-lt p n inside in
    (
      omega (
        arith,
        next_value p n inside,
        index_value p n i inside (omega arith),
        index_value ((p + 1) % n) n (suc i) next_inside below,
      ),
      λ same. omega (arith, index_value p n i inside (omega arith)),
    )

get_elem?-store_same :
    (xs : List AuditEvent) (i : ℕ) (e : AuditEvent)
    → i < length xs
    → get_elem? (store xs i e) i ≡ some e
unfolding store
get_elem?-store_same [] i e h = absurd (omega arith)
get_elem?-store_same (x ∷ xs) zero e h = refl
get_elem?-store_same (x ∷ xs) (suc i) e h = get_elem?-store_same xs i e (omega arith)

get_elem?-store_other :
    (xs : List AuditEvent) (i j : ℕ) (e : AuditEvent)
    → j ≢ i
    → get_elem? (store xs i e) j ≡ get_elem? xs j
unfolding store
get_elem?-store_other [] i j e h = refl
get_elem?-store_other (x ∷ xs) zero zero e h = absurd (h refl)
get_elem?-store_other (x ∷ xs) zero (suc j) e h = refl
get_elem?-store_other (x ∷ xs) (suc i) zero e h = refl
get_elem?-store_other (x ∷ xs) (suc i) (suc j) e h =
    get_elem?-store_other xs i j e (λ same. omega arith)

length-store : (xs : List AuditEvent) (i : ℕ) (e : AuditEvent) → length (store xs i e) ≡ length xs
unfolding store
length-store [] i e = refl
length-store (x ∷ xs) zero e = refl
length-store (x ∷ xs) (suc i) e = omega (arith, length-store xs i e)

-- The ring holds the latest events of a history, newest first, as many as fit.
pub record Holds (b : EventBuffer) (h : List AuditEvent) : Type 0 where
  pub full : length b.buf ≡ b.size
  pub inside : b.position < b.size
  pub counted :
      ((b.count ≡ length h) × (b.count ≤ b.size)) ⊎ ((b.count ≡ b.size) × (b.size ≤ length h))
  pub recent : (i : ℕ) → i < b.count → nth_latest b i ≡ get_elem? h i

length-events_of : (n : ℕ) → length (events_of n) ≡ n
unfolding events_of
length-events_of zero = refl
length-events_of (suc n) = omega (arith, length-events_of n)

-- A new ring holds nothing.
pub new_event_buffer-Holds : (z : ℤ) → Holds (new_event_buffer z) []
unfolding new_event_buffer
new_event_buffer-Holds (pos zero) = record {
  full = length-events_of 1_000;
  inside = omega arith;
  counted = inl (refl, omega arith);
  recent = λ i below. absurd (omega arith);
}
new_event_buffer-Holds (pos (suc n)) = record {
  full = length-events_of (suc n);
  inside = omega arith;
  counted = inl (refl, omega arith);
  recent = λ i below. absurd (omega arith);
}
new_event_buffer-Holds (negsuc n) = record {
  full = length-events_of 1_000;
  inside = omega arith;
  counted = inl (refl, omega arith);
  recent = λ i below. absurd (omega arith);
}

add_event-recent :
    (b : EventBuffer) (h : List AuditEvent) (e : AuditEvent) (now i : ℕ)
    → Holds b h
    → i < (add_event b e now).count
    → nth_latest (add_event b e now) i ≡ get_elem? (stamped e now ∷ h) i
unfolding add_event
add_event-recent b h e now zero holds below = rw (latest_slot b.position b.size holds.inside) (
    get_elem?-store_same b.buf b.position (stamped e now) (omega (arith, holds.full, holds.inside)))
add_event-recent b h e now (suc i) holds below =
    let (inside, before) : (suc i < b.size) × (i < b.count) = ground (arith, holds.counted) in
    let (same, other) = earlier_slot b.position b.size i holds.inside inside in
    rw same (
      get_elem?-store_other b.buf b.position ((b.position + b.size - 1 - i) % b.size)
        (stamped e now) other
      ∙ holds.recent i before)

-- After an addition the ring holds what was added, before what it held.
pub add_event-Holds :
    (b : EventBuffer) (h : List AuditEvent) (e : AuditEvent) (now : ℕ)
    → Holds b h
    → Holds (add_event b e now) (stamped e now ∷ h)
unfolding add_event
add_event-Holds b h e now holds = record {
  full = length-store b.buf b.position (stamped e now) ∙ holds.full;
  inside = next-lt b.position b.size holds.inside;
  counted = ground (arith, holds.counted);
  recent = λ i below. add_event-recent b h e now i holds below;
}
