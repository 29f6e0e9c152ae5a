-- ===== src/Hold.antt =====
-- pkg/hold/manager.go: calls that wait for a person to approve them. The mutex makes each operation
-- one step. The identifier that `generateID` draws and the time are arguments; the goroutine of
-- `startTimeout` is the step `expire`, taken once the sleep is over; what an operation sends on a
-- hold's channel, which is then closed, is a result of the step.
pub mod Once
pub mod Approval
use nullfield.Prelude.{
  ℕ, suc, ◌+◌, String, Bool, true, false, List, [], ◌∷◌, ◌++◌, map, Option, none, some,
  if◌then◌else◌, ◌==◌, ◌+++◌, ltb, length, keep_last,
}
use nullfield.Prelude.Dict
use nullfield.Prelude.Dict.{Dict}
use nullfield.Value.{Fields}

-- `Status`
pub data Status : Type 0 where
  pending approved denied timeout : Status

-- `HeldRequest`; an empty `ResolvedBy` is the empty text, a nil `ResolvedAt` is `none`.
pub record HeldRequest : Type 0 where
  pub id : String
  pub tool : String
  pub arguments : Option Fields
  pub identity : String
  pub session_id : String
  pub reason : String
  pub status : Status
  pub created_at : ℕ
  pub resolved_at : Option ℕ
  pub resolved_by : String

-- `Resolution`
pub record Resolution : Type 0 where
  pub is_approved : Bool
  pub by : String

-- `pendingHold`; its channel is known by the hold's identifier.
pub record PendingHold : Type 0 where
  pub request : HeldRequest
  pub timeout : ℕ

-- `Manager`
pub record Manager : Type 0 where
  pub pending : Dict PendingHold
  pub history : List HeldRequest
  pub max_hist : ℕ

-- `NewManager`
unfoldable pub new : Manager
new = record { pending = []; history = []; max_hist = 100 }

-- The tool, its arguments, the subject, the session and the reason of a hold
pub record Ask : Type 0 where
  pub tool : String
  pub arguments : Option Fields
  pub identity : String
  pub session_id : String
  pub reason : String

-- `Hold`, with the identifier that it returns
unfoldable pub hold : Manager → String → Ask → ℕ → ℕ → Manager
hold m id a wait now = record m {
  pending =
      Dict.put id
        (record {
          request = record {
            id = id;
            tool = a.tool;
            arguments = a.arguments;
            identity = a.identity;
            session_id = a.session_id;
            reason = a.reason;
            status = pending;
            created_at = now;
            resolved_at = none;
            resolved_by = "";
          };
          timeout = wait;
        })
        m.pending;
}

-- The hold is dropped, and its request is added to the history, whose oldest entries make room.
unfoldable pub settle : Manager → String → HeldRequest → Manager
settle m id req =
    let grown = m.history ++ req ∷ [] in
    record m {
      pending = Dict.remove id m.pending;
      history = if ltb m.max_hist (length grown) then keep_last m.max_hist grown else grown;
    }

unfoldable pub resolved : HeldRequest → Bool → String → ℕ → HeldRequest
resolved req is_approved by now = record req {
  resolved_at = some now;
  resolved_by = by;
  status = if is_approved then approved else denied;
}

-- What a step sends, and on which hold's channel
abbrev pub Sent : Type 0
Sent = List (String × Resolution)

unfoldable pub resolve_found :
    Option PendingHold → Manager → String → Bool → String → ℕ → Manager × Sent × Option String
unfolding settle resolved
resolve_found none m id is_approved by now =
    (m, [], some ("hold " +++ id +++ " not found or already resolved"))
resolve_found (some p) m id is_approved by now = (
  settle m id (resolved p.request is_approved by now),
  (id, record { is_approved = is_approved; by = by }) ∷ [],
  none,
)

-- `resolve`: the manager, what is sent, and the error if there is one
unfoldable pub resolve : Manager → String → Bool → String → ℕ → Manager × Sent × Option String
unfolding resolve_found
resolve m id is_approved by now = resolve_found (Dict.lookup id m.pending) m id is_approved by now

-- `Approve`
abbrev pub approve : Manager → String → String → ℕ → Manager × Sent × Option String
approve m id by now = resolve m id true by now

-- `Deny`
abbrev pub deny : Manager → String → String → ℕ → Manager × Sent × Option String
deny m id by now = resolve m id false by now

unfoldable pub timed_out : HeldRequest → ℕ → HeldRequest
timed_out req now = record req { resolved_at = some now; status = timeout }

unfoldable pub expire_found : Option PendingHold → Manager → String → ℕ → Manager × Sent
unfolding settle timed_out
expire_found none m id now = (m, [])
expire_found (some p) m id now = (
  settle m id (timed_out p.request now),
  (id, record { is_approved = false; by = "timeout" }) ∷ [],
)

-- `startTimeout`, after its sleep
unfoldable pub expire : Manager → String → ℕ → Manager × Sent
unfolding expire_found
expire m id now = expire_found (Dict.lookup id m.pending) m id now

-- `List`
abbrev pub holds : Manager → List HeldRequest
holds m = map (λ p. p.1.request) m.pending

unfoldable pub find_request : String → List HeldRequest → Option HeldRequest
find_request id [] = none
find_request id (h ∷ history) = if h.id == id then some h else find_request id history

-- `Get`
unfoldable pub get : Manager → String → Option HeldRequest
unfolding find_request
get m id = elim (Dict.lookup id m.pending) [
  | some p ↦ some p.request
  | none ↦ find_request id m.history
]
