-- ===== src/Hold/Once.antt =====
-- How often a hold of pkg/hold/manager.go is resolved.
use nullfield.Prelude.{
  ℕ, ◌+◌, ◌≤◌, ◌≡◌, refl, sym, ◌∙◌, ap, inl, inr, String, Bool, true, false, not, ◌&&◌, ◌||◌, List,
  [], ◌∷◌, ◌++◌, Option, none, some, ◌==◌, eq_iff, eq_refl, arith, if◌then◌else◌, is_some, any,
  Bool-cases,
}
use nullfield.Prelude.Dict.{lookup, lookup-put, lookup-remove}
use nullfield.Hold.{
  HeldRequest, Resolution, PendingHold, Manager, Ask, Sent, new, hold, settle, resolved, timed_out,
  resolve_found, resolve, expire_found, expire,
}

-- What happens to a manager: a call is held, a person approves or denies, a sleep is over.
pub data Event : Type 0 where
  held : String → Ask → ℕ → ℕ → Event
  decided : String → Bool → String → ℕ → Event
  slept : String → ℕ → Event

-- The manager after an event, and what is sent.
unfoldable pub step : Manager → Event → Manager × Sent
step m (held id a wait now) = (hold m id a wait now, [])
step m (decided id is_approved by now) =
    let (after, sent, _) = resolve m id is_approved by now in (after, sent)
step m (slept id now) = expire m id now

unfoldable pub run : Manager → List Event → Manager × Sent
run m [] = (m, [])
run m (e ∷ events) =
    let (after, sent) = step m e in let (last, rest) = run after events in (last, sent ++ rest)

-- How often the channel of `id` is sent something.
unfoldable pub sends : String → Sent → ℕ
sends id [] = 0
sends id ((j, r) ∷ sent) = (if j == id then 1 else 0) + sends id sent

abbrev pub is_held : String → Event → Bool
is_held id (held j a wait now) = j == id
is_held id (decided j is_approved by now) = false
is_held id (slept j now) = false

-- The event resolves a hold of `id`, if one is pending.
abbrev pub ends : String → Event → Bool
ends id (held j a wait now) = false
ends id (decided j is_approved by now) = j == id
ends id (slept j now) = j == id

unfoldable pub holds_of : String → List Event → ℕ
holds_of id [] = 0
holds_of id (e ∷ events) = (if is_held id e then 1 else 0) + holds_of id events

unfoldable pub is_pending : String → Manager → Bool
is_pending id m = is_some (lookup id m.pending)

abbrev count : Bool → ℕ
count b = if b then 1 else 0

sends-append : (id : String) (a b : Sent) → sends id (a ++ b) ≡ sends id a + sends id b
unfolding sends
sends-append id [] b = omega arith
sends-append id ((j, r) ∷ a) b = omega (arith, sends-append id a b)

is_pending-hold :
    (id : String) (m : Manager) (j : String) (a : Ask) (wait now : ℕ)
    → is_pending id (hold m j a wait now) ≡ (j == id) || is_pending id m
unfolding is_pending hold
is_pending-hold id m j a wait now =
    ap is_some (lookup-put j id _ m.pending)
    ∙ elim (Bool-cases (j == id)) [ inl same ↦ ground arith | inr other ↦ ground arith ]

is_pending-settle :
    (id : String) (m : Manager) (j : String) (req : HeldRequest)
    → is_pending id (settle m j req) ≡ not (j == id) && is_pending id m
unfolding is_pending settle
is_pending-settle id m j req = ground (arith, lookup-remove j id m.pending)

-- What ends a hold of `j`, if one is pending: it is sent something once, and is no longer pending.
abbrev Ends : String → String → Manager → Manager → Sent → Type 0
Ends id j m after sent =
    (is_pending id after ≡ not (j == id) && is_pending id m)
    × (sends id sent ≡ count (j == id && is_pending id m))

settle-Ends :
    (id j : String) (m : Manager) (req : HeldRequest) (r : Resolution)
    → is_pending j m ≡ true
    → Ends id j m (settle m j req) ((j, r) ∷ [])
unfolding sends
settle-Ends id j m req r h = (is_pending-settle id m j req, ground (arith, eq_iff j id))

none-Ends : (id j : String) (m : Manager) → is_pending j m ≡ false → Ends id j m m []
unfolding sends
none-Ends id j m h = (ground (arith, eq_iff j id), ground (arith, eq_iff j id))

resolve_found-Ends :
    (id j : String) (m : Manager) (is_approved : Bool) (by : String) (now : ℕ)
    (found : Option PendingHold)
    → is_pending j m ≡ is_some found
    → let (after, sent, _) = resolve_found found m j is_approved by now in Ends id j m after sent
unfolding resolve_found
resolve_found-Ends id j m is_approved by now none e = none-Ends id j m e
resolve_found-Ends id j m is_approved by now (some p) e =
    settle-Ends id j m (resolved p.request is_approved by now)
      (record { is_approved = is_approved; by = by }) e

expire_found-Ends :
    (id j : String) (m : Manager) (now : ℕ) (found : Option PendingHold)
    → is_pending j m ≡ is_some found
    → let (after, sent) = expire_found found m j now in Ends id j m after sent
unfolding expire_found
expire_found-Ends id j m now none e = none-Ends id j m e
expire_found-Ends id j m now (some p) e =
    settle-Ends id j m (timed_out p.request now) (record { is_approved = false; by = "timeout" }) e

-- The identifier whose hold an event can end.
abbrev Step : String → Manager → Event → Type 0
Step id m e =
    ((is_pending id (step m e).0 ≡ is_held id e || (not (ends id e) && is_pending id m))
      × (sends id (step m e).1 ≡ count (ends id e && is_pending id m)))

step_lem : (id : String) (m : Manager) (e : Event) → Step id m e
unfolding step sends is_pending resolve expire
step_lem id m (held j a wait now) = (is_pending-hold id m j a wait now, refl)
step_lem id m (decided j is_approved by now) =
    resolve_found-Ends id j m is_approved by now (lookup j m.pending) refl
step_lem id m (slept j now) = expire_found-Ends id j m now (lookup j m.pending) refl

run-cons :
    (id : String) (m : Manager) (e : Event) (events : List Event)
    → sends id (run m (e ∷ events)).1 ≡ sends id (step m e).1 + sends id (run (step m e).0 events).1
unfolding run
run-cons id m e events = sends-append id (step m e).1 (run (step m e).0 events).1

run-nil : (id : String) (m : Manager) → sends id (run m []).1 ≡ 0
unfolding run sends
run-nil id m = refl

holds_of-cons :
    (id : String) (e : Event) (events : List Event)
    → holds_of id (e ∷ events) ≡ count (is_held id e) + holds_of id events
unfolding holds_of
holds_of-cons id e events = refl

run-sends :
    (id : String) (m : Manager) (events : List Event)
    → sends id (run m events).1 ≤ count (is_pending id m) + holds_of id events
unfolding holds_of
run-sends id m [] = ground (arith, run-nil id m)
run-sends id m (e ∷ events) =
    let (later, sent) = step_lem id m e in
    let rest = run-sends id (step m e).0 events in ground (arith, run-cons id m e events)

new-pending : (id : String) → is_pending id new ≡ false
unfolding is_pending new lookup
new-pending id = refl

-- A hold's channel, which has room for one message, is sent at most one for every time that the
-- identifier is held, whoever approves or denies it and whenever its sleep is over.
pub run-sends_once :
    (id : String) (events : List Event) → sends id (run new events).1 ≤ holds_of id events
run-sends_once id events = ground (arith, run-sends id new events, new-pending id)

run-last :
    (m : Manager) (e : Event) (events : List Event)
    → (run m (e ∷ events)).0 ≡ (run (step m e).0 events).0
unfolding run
run-last m e events = refl

run-pending :
    (id : String) (m : Manager) (events : List Event)
    → holds_of id events ≡ 0
    → (is_pending id (run m events).0 ≡ not (any (ends id) events) && is_pending id m)
      × (sends id (run m events).1 ≡ count (any (ends id) events && is_pending id m))
unfolding run sends
run-pending id m [] h = (refl, refl)
run-pending id m (e ∷ events) h =
    let fresh =
      none_held (is_held id e) (holds_of id events) (sym (holds_of-cons id e events) ∙ h) in
    let (later, sent) = step_lem id m e in
    let (last, rest) = run-pending id (step m e).0 events fresh.1 in
    (
      last
          ∙ pending_after (is_held id e) (ends id e) (any (ends id) events) (is_pending id m) _
              fresh.0 later,
      run-cons id m e events
          ∙ sent_after (is_held id e) (ends id e) (any (ends id) events) (is_pending id m) _ _ _
              fresh.0 later sent rest,
    )
  where
    none_held : (b : Bool) (n : ℕ) → count b + n ≡ 0 → (b ≡ false) × (n ≡ 0)
    none_held b n e = ground arith

    pending_after :
        (again now later before after : Bool)
        → again ≡ false
        → after ≡ again || (not now && before)
        → not later && after ≡ not (now || later) && before
    pending_after again now later before after e f = ground arith

    sent_after :
        (again now later before after : Bool) (x y : ℕ)
        → again ≡ false
        → after ≡ again || (not now && before)
        → x ≡ count (now && before)
        → y ≡ count (later && after)
        → x + y ≡ count ((now || later) && before)
    sent_after again now later before after x y e f g k = ground arith

-- Every hold is resolved, exactly once, by the first of an approval, a denial and the end of its
-- sleep to come: once one of them is among the events, which do not hold the identifier again,
-- one message was sent and the hold is no longer pending.
pub run-resolved :
    (id : String) (a : Ask) (wait now : ℕ) (m : Manager) (events : List Event)
    → holds_of id events ≡ 0
    → any (ends id) events ≡ true
    → (sends id (run (hold m id a wait now) events).1 ≡ 1)
      × (is_pending id (run (hold m id a wait now) events).0 ≡ false)
run-resolved id a wait now m events none_held ended =
    let (last, sent) = run-pending id (hold m id a wait now) events none_held in
    let pending = is_pending-hold id m id a wait now in
    (ground (arith, eq_refl id), ground (arith, eq_refl id))
