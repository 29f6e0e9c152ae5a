-- ===== src/Controller/Events/Recent.antt =====
-- What the ring of pkg/controller/events.go lists, against the plain list of what was added, newest
-- first.
use nullfield.Prelude.{
  ap, sym, ℕ, zero, suc, ◌+◌, ◌≤◌, ◌<◌, ◌≡◌, refl, ◌∙◌, inl, inr, String, not, ◌&&◌, List, [], ◌∷◌,
  some, if◌then◌else◌, ltb, ◌==◌, ℤ, pos, negsuc, get_elem?, length, arith, Bool-cases,
}
use nullfield.Controller.Events.{
  AuditEvent, EventBuffer, new_event_buffer, stamped, add_event, nth_latest, collect, limit_of,
  list_events,
}
use nullfield.Controller.Events.Ring.{Holds, new_event_buffer-Holds, add_event-Holds}

abbrev first : ℕ → List AuditEvent → List AuditEvent
first zero h = []
first (suc n) [] = []
first (suc n) (e ∷ h) = e ∷ first n h

-- What has the type asked for; an empty one asks for all.
abbrev of_type : String → List AuditEvent → List AuditEvent
of_type t [] = []
of_type t (e ∷ h) =
    if not (t == "") && not (e.event_type == t) then of_type t h else e ∷ of_type t h

-- A limit that is not positive sets none.
abbrev up_to : ℤ → List AuditEvent → List AuditEvent
up_to (pos zero) h = h
up_to (pos (suc n)) h = first (suc n) h
up_to (negsuc n) h = h

first-all : (n : ℕ) (h : List AuditEvent) → length h ≤ n → first n h ≡ h
first-all zero [] le = refl
first-all zero (e ∷ h) le = absurd (omega arith)
first-all (suc n) [] le = refl
first-all (suc n) (e ∷ h) le = ap (λ l. e ∷ l) (first-all n h (omega arith))

length-first-le : (n : ℕ) (h : List AuditEvent) → length (first n h) ≤ n
length-first-le zero h = omega arith
length-first-le (suc n) [] = omega arith
length-first-le (suc n) (e ∷ h) = omega (arith, length-first-le n h)

length-of_type-le : (t : String) (h : List AuditEvent) → length (of_type t h) ≤ length h
length-of_type-le t [] = omega arith
length-of_type-le t (e ∷ h) = ground (arith, length-of_type-le t h)

up_to-limit_of :
    (limit : ℤ) (count : ℕ) (h : List AuditEvent)
    → length h ≤ count
    → first (limit_of limit count) h ≡ up_to limit h
unfolding limit_of
up_to-limit_of (pos zero) count h le = first-all count h le
up_to-limit_of (pos (suc n)) count h le = elim (Bool-cases (ltb count (suc n))) [
  | inl over ↦ rw (over, limit_of) (first-all count h le ∙ sym (first-all (suc n) h (ground arith)))
  | inr within ↦ rw (within, limit_of) refl
]
up_to-limit_of (negsuc n) count h le = first-all count h le

collect-first :
    (b : EventBuffer) (t : String) (i rounds room : ℕ) (g : List AuditEvent)
    → rounds ≤ length g
    → ((j k : ℕ) → k ≡ i + j → j < rounds → nth_latest b k ≡ get_elem? g j)
    → collect b t i rounds room ≡ first room (of_type t (first rounds g))
unfolding collect
collect-first b t i zero zero g le at_ = refl
collect-first b t i zero (suc room) g le at_ = refl
collect-first b t i (suc rounds) zero g le at_ = refl
collect-first b t i (suc rounds) (suc room) [] le at_ = absurd (omega arith)
collect-first b t i (suc rounds) (suc room) (e ∷ g) le at_ =
    let found : nth_latest b i ≡ some e = at_ 0 i (omega arith) (omega arith) in
    let rest = λ (left : ℕ).
      collect-first b t (suc i) rounds left g (omega arith)
        (λ j k is below. at_ (suc j) k (omega arith) (omega arith)) in
    elim (Bool-cases (not (t == "") && not (e.event_type == t))) [
      | inl skipped ↦ rw (found, skipped, collect) (rest (suc room))
      | inr kept ↦ rw (found, kept, collect) (ap (λ l. e ∷ l) (rest room))
    ]

-- A ring of this size to which these were added, the newest of them first
abbrev pub ring : ℤ → List (AuditEvent × ℕ) → EventBuffer
ring z [] = new_event_buffer z
ring z ((e, now) ∷ es) = add_event (ring z es) e now

abbrev pub history : List (AuditEvent × ℕ) → List AuditEvent
history [] = []
history ((e, now) ∷ es) = stamped e now ∷ history es

ring-Holds : (z : ℤ) (es : List (AuditEvent × ℕ)) → Holds (ring z es) (history es)
ring-Holds z [] = new_event_buffer-Holds z
ring-Holds z ((e, now) ∷ es) = add_event-Holds (ring z es) (history es) e now (ring-Holds z es)

size-ring : (z : ℤ) (es : List (AuditEvent × ℕ)) → (ring z es).size ≡ (new_event_buffer z).size
unfolding add_event
size-ring z [] = refl
size-ring z ((e, now) ∷ es) = size-ring z es

first-count : (b : EventBuffer) (h : List AuditEvent) → Holds b h → first b.count h ≡ first b.size h
first-count b h holds = elim holds.counted [
  | inl (all, room) ↦ first-all b.count h (omega arith) ∙ sym (first-all b.size h (omega arith))
  | inr (same, over) ↦ ap (λ n. first n h) same
]

list_events-Holds :
    (b : EventBuffer) (h : List AuditEvent) (t : String) (limit : ℤ)
    → Holds b h
    → list_events b t limit ≡ up_to limit (of_type t (first b.size h))
unfolding list_events
list_events-Holds b h t limit holds =
    collect-first b t 0 b.count (limit_of limit b.count) h (omega (arith, holds.counted))
      (λ j k is below. let same : k ≡ j = omega arith in rw same (holds.recent j below))
    ∙ (up_to-limit_of limit b.count (of_type t (first b.count h))
          (omega (arith, length-of_type-le t (first b.count h), length-first-le b.count h))
        ∙ ap (λ l. up_to limit (of_type t l)) (first-count b h holds))

-- What the ring lists, after any additions, is what the plain list of the additions gives: of its latest
-- entries, as many as the ring has room for, those of the type asked for, newest first, and no more of
-- them than a positive limit.
pub list_events-latest :
    (z limit : ℤ) (t : String) (es : List (AuditEvent × ℕ))
    → list_events (ring z es) t limit
      ≡ up_to limit (of_type t (first (new_event_buffer z).size (history es)))
list_events-latest z limit t es =
    list_events-Holds (ring z es) (history es) t limit (ring-Holds z es)
    ∙ ap (λ n. up_to limit (of_type t (first n (history es)))) (size-ring z es)
