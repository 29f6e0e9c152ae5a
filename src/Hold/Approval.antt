-- ===== src/Hold/Approval.antt =====
-- When a hold of pkg/hold/manager.go lets its call go ahead, and how long its history grows.
use nullfield.Prelude.{
  ℕ, ◌≤◌, ◌≡◌, refl, String, Bool, true, false, ◌&&◌, ◌||◌, List, [], ◌∷◌, ◌++◌, Option, none, some,
  ◌==◌, arith, any, length, length-keep_last-le,
}
use nullfield.Prelude.Dict.{lookup}
use nullfield.Hold.{
  HeldRequest, PendingHold, Manager, Sent, hold, settle, resolved, timed_out, resolve_found,
  resolve, expire_found, expire,
}
use nullfield.Hold.Once.{Event, held, decided, slept, step, run}

-- The channel of `id` is told to go ahead.
unfoldable pub goes_ahead : String → Sent → Bool
goes_ahead id [] = false
goes_ahead id ((j, r) ∷ sent) = (j == id && r.is_approved) || goes_ahead id sent

-- Someone approves `id`.
abbrev pub approves : String → Event → Bool
approves id (held j a wait now) = false
approves id (decided j is_approved by now) = j == id && is_approved
approves id (slept j now) = false

goes_ahead-append :
    (id : String) (a b : Sent) → goes_ahead id (a ++ b) ≡ goes_ahead id a || goes_ahead id b
unfolding goes_ahead
goes_ahead-append id [] b = refl
goes_ahead-append id ((j, r) ∷ a) b = ground (arith, goes_ahead-append id a b)

resolve_found-goes_ahead :
    (found : Option PendingHold) (m : Manager) (id j : String) (is_approved : Bool) (by : String)
    (now : ℕ)
    → goes_ahead id (resolve_found found m j is_approved by now).1 ≡ true
    → (j == id && is_approved) ≡ true
unfolding resolve_found goes_ahead
resolve_found-goes_ahead none m id j is_approved by now h = ground arith
resolve_found-goes_ahead (some p) m id j is_approved by now h = ground arith

expire_found-goes_ahead :
    (found : Option PendingHold) (m : Manager) (id j : String) (now : ℕ)
    → goes_ahead id (expire_found found m j now).1 ≡ false
unfolding expire_found goes_ahead
expire_found-goes_ahead none m id j now = refl
expire_found-goes_ahead (some p) m id j now = ground arith

step-goes_ahead :
    (id : String) (m : Manager) (e : Event)
    → goes_ahead id (step m e).1 ≡ true
    → approves id e ≡ true
unfolding step goes_ahead resolve expire
step-goes_ahead id m (held j a wait now) h = h
step-goes_ahead id m (decided j is_approved by now) h =
    resolve_found-goes_ahead (lookup j m.pending) m id j is_approved by now h
step-goes_ahead id m (slept j now) h =
    ground (arith, expire_found-goes_ahead (lookup j m.pending) m id j now)

-- A held call is told to go ahead only if an approval of its identifier is among the events: no
-- denial, no end of a sleep and no other identifier's approval lets it through.
pub run-goes_ahead :
    (id : String) (m : Manager) (events : List Event)
    → goes_ahead id (run m events).1 ≡ true
    → any (approves id) events ≡ true
unfolding run goes_ahead
run-goes_ahead id m [] h = h
run-goes_ahead id m (e ∷ events) h =
    let (after, sent) = step m e in
    ground (
      arith,
      goes_ahead-append id (step m e).1 (run (step m e).0 events).1,
      step-goes_ahead id m e,
      run-goes_ahead id (step m e).0 events,
    )

-- The history keeps to its bound.
abbrev pub IsBounded : Manager → Type 0
IsBounded m = length m.history ≤ m.max_hist

settle-IsBounded : (m : Manager) (id : String) (req : HeldRequest) → IsBounded (settle m id req)
unfolding settle
settle-IsBounded m id req = ground (arith, length-keep_last-le m.max_hist (m.history ++ req ∷ []))

resolve_found-IsBounded :
    (found : Option PendingHold) (m : Manager) (id : String) (is_approved : Bool) (by : String)
    (now : ℕ)
    → IsBounded m
    → IsBounded (resolve_found found m id is_approved by now).0
unfolding resolve_found
resolve_found-IsBounded none m id is_approved by now h = h
resolve_found-IsBounded (some p) m id is_approved by now h =
    settle-IsBounded m id (resolved p.request is_approved by now)

expire_found-IsBounded :
    (found : Option PendingHold) (m : Manager) (id : String) (now : ℕ)
    → IsBounded m
    → IsBounded (expire_found found m id now).0
unfolding expire_found
expire_found-IsBounded none m id now h = h
expire_found-IsBounded (some p) m id now h = settle-IsBounded m id (timed_out p.request now)

step-IsBounded : (m : Manager) (e : Event) → IsBounded m → IsBounded (step m e).0
unfolding step hold resolve expire
step-IsBounded m (held j a wait now) h = h
step-IsBounded m (decided j is_approved by now) h =
    resolve_found-IsBounded (lookup j m.pending) m j is_approved by now h
step-IsBounded m (slept j now) h = expire_found-IsBounded (lookup j m.pending) m j now h

-- However many calls are held and resolved, a history within its bound stays within it.
pub run-IsBounded : (m : Manager) (events : List Event) → IsBounded m → IsBounded (run m events).0
unfolding run
run-IsBounded m [] h = h
run-IsBounded m (e ∷ events) h = run-IsBounded (step m e).0 events (step-IsBounded m e h)
