-- ===== src/Controller/Holds/Resolution.antt =====
-- What is left of a hold of pkg/controller/holds.go once it has been resolved.
use nullfield.Prelude.{ℕ, ◌≡◌, refl, ◌∙◌, String, true, [], Option, none, some, eq_refl, is_some}
use nullfield.Prelude.Dict
use nullfield.Prelude.Dict.{Dict, lookup-remove}
use nullfield.Controller.Holds.{
  HoldState, timed_out, Hold, HoldEntry, HoldStore, archive, close, resolve_entry, resolve,
  timeout_entry, run_timeout,
}

-- The hold is not pending.
abbrev pub Closed : String → HoldStore → Type 0
Closed id s = Dict.lookup id s.pending ≡ none

close-Closed :
    (s : HoldStore) (id : String) (h : Hold) (state : HoldState) (by : String) (now : ℕ)
    → Closed id (close s id h state by now)
unfolding close archive
close-Closed s id h state by now = lookup-remove id id s.pending ∙ rw (eq_refl id) refl

resolve_entry-Closed :
    (o : Option HoldEntry) (s : HoldStore) (id : String) (state : HoldState) (by : String) (now : ℕ)
    → Dict.lookup id s.pending ≡ o
    → Closed id (resolve_entry o s id state by now).0
unfolding resolve_entry
resolve_entry-Closed none s id state by now e = e
resolve_entry-Closed (some h) s id state by now e = close-Closed s id h.hold state by now

timeout_entry-Closed :
    (o : Option HoldEntry) (s : HoldStore) (id on_timeout : String) (now : ℕ)
    → Dict.lookup id s.pending ≡ o
    → Closed id (timeout_entry o s id on_timeout now).0
unfolding timeout_entry
timeout_entry-Closed none s id on_timeout now e = e
timeout_entry-Closed (some h) s id on_timeout now e =
    close-Closed s id h.hold timed_out "timeout" now

Closed-silent :
    (s : HoldStore) (id on_timeout : String) (state : HoldState) (by : String) (now : ℕ)
    → Closed id s
    → ((resolve s id state by now).1 ≡ [])
      × (is_some (resolve s id state by now).2 ≡ true)
      × ((run_timeout s id on_timeout now).1 ≡ [])
unfolding resolve run_timeout resolve_entry timeout_entry
Closed-silent s id on_timeout state by now e = rw (e, resolve, run_timeout) (refl, refl, refl)

-- After an approval, a denial or a time-out of a hold, a second resolution of it fails and sends
-- nothing, and the end of its sleep sends nothing; whether or not the hold was pending before.
pub resolve-closed :
    (s : HoldStore) (id on_timeout by later_by : String) (state later : HoldState) (now then_ : ℕ)
    → let s' = (resolve s id state by now).0 in
      let t' = (run_timeout s id on_timeout now).0 in
      (((resolve s' id later later_by then_).1 ≡ [])
        × (is_some (resolve s' id later later_by then_).2 ≡ true)
        × ((run_timeout s' id on_timeout then_).1 ≡ []))
      × (((resolve t' id later later_by then_).1 ≡ [])
          × (is_some (resolve t' id later later_by then_).2 ≡ true)
          × ((run_timeout t' id on_timeout then_).1 ≡ []))
unfolding resolve run_timeout
resolve-closed s id on_timeout by later_by state later now then_ = (
  Closed-silent _ id on_timeout later later_by then_
      (resolve_entry-Closed (Dict.lookup id s.pending) s id state by now refl),
  Closed-silent _ id on_timeout later later_by then_
      (timeout_entry-Closed (Dict.lookup id s.pending) s id on_timeout now refl),
)
