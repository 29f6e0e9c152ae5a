-- ===== src/Controller/Holds.antt =====
-- pkg/controller/holds.go: the calls that wait for a person, for a whole cluster. The mutex makes each
-- operation one step. The identifier that `generateHoldID` draws and the time are arguments; the
-- goroutine of `runTimeout` is the step `run_timeout`, taken once its sleep is over; what an operation
-- sends on a hold's channel, which is then closed, is a result of the step.
pub mod Resolution
use nullfield.Prelude.{
  ℕ, String, Bool, true, false, List, [], ◌∷◌, ◌++◌, map, Option, none, some, if◌then◌else◌, ◌==◌,
  ◌+++◌, ltb, length, keep_last,
}
use nullfield.Prelude.Dict
use nullfield.Prelude.Dict.{Dict}

-- `HoldState`
pub data HoldState : Type 0 where
  pending approved denied timed_out : HoldState

-- `Hold`; a zero `ResolvedAt` is `none`.
pub record Hold : Type 0 where
  pub id : String
  pub tool : String
  pub identity : String
  pub session_id : String
  pub reason : String
  pub state : HoldState
  pub on_timeout : String
  pub payload : String
  pub created_at : ℕ
  pub resolved_at : Option ℕ
  pub resolved_by : String

-- `holdEntry`; its channel is known by the hold's identifier.
pub record HoldEntry : Type 0 where
  pub hold : Hold
  pub timeout : ℕ

-- `HoldStore`
pub record HoldStore : Type 0 where
  pub pending : Dict HoldEntry
  pub history : List Hold
  pub max_hist : ℕ

-- `NewHoldStore`
abbrev pub new_hold_store : HoldStore
new_hold_store = record { pending = []; history = []; max_hist = 500 }

-- What a step sends, and on which hold's channel
abbrev pub SentState : Type 0
SentState = List (String × HoldState)

-- `Create`, of a hold whose state is pending
unfoldable pub create : HoldStore → Hold → ℕ → HoldStore
create s h wait = record s {
  pending = Dict.put h.id (record { hold = h; timeout = wait }) s.pending;
}

-- `archive`
unfoldable pub archive : HoldStore → Hold → HoldStore
archive s h =
    let grown = s.history ++ h ∷ [] in
    record s {
      history = if ltb s.max_hist (length grown) then keep_last s.max_hist grown else grown;
    }

-- The hold is dropped, and archived in its last state.
unfoldable pub close : HoldStore → String → Hold → HoldState → String → ℕ → HoldStore
unfolding archive
close s id h state by now =
    archive (record s { pending = Dict.remove id s.pending })
      (record h { state = state; resolved_at = some now; resolved_by = by })

unfoldable pub resolve_entry :
    Option HoldEntry
    → HoldStore
    → String
    → HoldState
    → String
    → ℕ
    → HoldStore × SentState × Option String
unfolding close
resolve_entry none s id state by now =
    (s, [], some ("hold " +++ id +++ " not found or already resolved"))
resolve_entry (some e) s id state by now = (close s id e.hold state by now, (id, state) ∷ [], none)

-- `resolve`
unfoldable pub resolve :
    HoldStore → String → HoldState → String → ℕ → HoldStore × SentState × Option String
unfolding resolve_entry
resolve s id state by now = resolve_entry (Dict.lookup id s.pending) s id state by now

-- `Approve`
abbrev pub approve : HoldStore → String → String → ℕ → HoldStore × SentState × Option String
approve s id by now = resolve s id approved by now

-- `Deny`
abbrev pub deny : HoldStore → String → String → ℕ → HoldStore × SentState × Option String
deny s id by now = resolve s id denied by now

unfoldable pub timeout_entry :
    Option HoldEntry → HoldStore → String → String → ℕ → HoldStore × SentState
unfolding close
timeout_entry none s id on_timeout now = (s, [])
timeout_entry (some e) s id on_timeout now = (
  close s id e.hold timed_out "timeout" now,
  (id, if on_timeout == "ALLOW" then approved else denied) ∷ [],
)

-- `runTimeout`, after its sleep
unfoldable pub run_timeout : HoldStore → String → String → ℕ → HoldStore × SentState
unfolding timeout_entry
run_timeout s id on_timeout now = timeout_entry (Dict.lookup id s.pending) s id on_timeout now

unfoldable pub find_hold : String → List Hold → Option Hold
find_hold id [] = none
find_hold id (h ∷ holds) = let rest = find_hold id holds in if h.id == id then some h else rest

-- `Get`
unfoldable pub get : HoldStore → String → Option Hold
unfolding find_hold
get s id = elim (Dict.lookup id s.pending) [ some e ↦ some e.hold | none ↦ find_hold id s.history ]

-- `List`
abbrev pub list : HoldStore → List Hold
list s = map (λ e. e.1.hold) s.pending ++ s.history
