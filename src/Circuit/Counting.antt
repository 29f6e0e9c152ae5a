-- ===== src/Circuit/Counting.antt =====
-- How often the trip of a session of pkg/circuit/breaker.go is reported, and what its sweep lets through.
use nullfield.Prelude.{
  ℕ, suc, ◌+◌, ◌≤◌, ◌<◌, ◌≡◌, refl, ◌≢◌, String, Bool, true, false, List, [], ◌∷◌, none, some, ◌==◌,
  eq_iff, arith, ◌&&◌, ◌∙◌, ◌*◌, double64, inl, inr, if◌then◌else◌, pos, Bool-cases,
}
use nullfield.Circuit.{
  SessionState, Breaker, within_limits, is_allowed, count_call, record_call, first_trip, sweep,
}

-- What happens to a breaker between a session's trips, with the reports of `FirstTrip`.
pub data Event : Type 0 where
  called : String → ℕ → Event
  refused : String → Event

-- How often `FirstTrip` reports a session in a series of events.
pub reports : String → List Event → Breaker → ℕ
reports id [] b = 0
reports id (called k now ∷ events) b = reports id events (record_call b k now)
reports id (refused k ∷ events) b =
    let (b', first) = first_trip b k in
    let rest = reports id events b' in if first && (k == id) then suc rest else rest

abbrev is_tripped : Breaker → String → Bool
is_tripped b id = elim (b.sessions id) [ none ↦ false | some s ↦ s.tripped ]

record_call-is_tripped :
    (b : Breaker) (k id : String) (now : ℕ) → is_tripped (record_call b k now) id ≡ is_tripped b id
unfolding record_call count_call
record_call-is_tripped b k id now = ground (arith, eq_iff k id)

-- A report marks the session; nothing unmarks it, and a marked session is not reported.
record Trips (id k : String) (b b' : Breaker) (first : Bool) : Type 0 where
  marks : first && (k == id) ≡ true → (is_tripped b id ≡ false) × (is_tripped b' id ≡ true)
  keeps : is_tripped b id ≡ true → is_tripped b' id ≡ true

first_trip-Trips :
    (id k : String) (b : Breaker) → Trips id k b (first_trip b k).0 (first_trip b k).1
unfolding first_trip
first_trip-Trips id k b = ground (arith, eq_iff k id)

reports_after :
    (id : String) (events : List Event) (b : Breaker)
    → is_tripped b id ≡ true
    → reports id events b ≡ 0
unfolding reports
reports_after id [] b h = refl
reports_after id (called k now ∷ events) b h =
    reports_after id events (record_call b k now) (record_call-is_tripped b k id now ∙ h)
reports_after id (refused k ∷ events) b h =
    let t = first_trip-Trips id k b in
    ground (arith, t.marks, t.keeps, reports_after id events (first_trip b k).0 (t.keeps h))

-- Until it is reset or swept, a session's trip is reported at most once, however many calls it
-- makes and however many of them are refused.
pub reports-le-one : (id : String) (events : List Event) (b : Breaker) → reports id events b ≤ 1
unfolding reports
reports-le-one id [] b = omega arith
reports-le-one id (called k now ∷ events) b = reports-le-one id events (record_call b k now)
reports-le-one id (refused k ∷ events) b =
    let t = first_trip-Trips id k b in
    elim (Bool-cases ((first_trip b k).1 && (k == id))) [
      | inl first ↦
          rw first (omega (arith, reports_after id events (first_trip b k).0 ((t.marks first).1)))
      | inr again ↦ rw again (reports-le-one id events (first_trip b k).0)
    ]

-- A named session that has outlived the breaker's limit on its age is refused; also after a sweep at
-- a time up to twice the limit from its start; and after a sweep at a later time it is let through.
-- Twice the limit is below 2 ^ 63.
pub sweep_readmits :
    (b : Breaker) (id : String) (s : SessionState) (d swept now : ℕ)
    → id ≢ ""
    → b.sessions id ≡ some s
    → b.max_duration ≡ pos (suc d)
    → double64 (pos (suc d)) ≡ pos (2 * suc d)
    → s.started + suc d < now
    → (is_allowed b id now ≡ false)
      × (swept ≤ s.started + 2 * suc d → is_allowed (sweep b swept) id now ≡ false)
      × (s.started + 2 * suc d < swept → is_allowed (sweep b swept) id now ≡ true)
unfolding is_allowed within_limits sweep
sweep_readmits b id s d swept now named here limit small late = (
  ground (arith, eq_iff id ""),
  λ early. ground (arith, eq_iff id ""),
  λ stale. ground (arith, eq_iff id ""),
)
