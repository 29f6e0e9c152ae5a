-- ===== src/Controller/Events.antt =====
-- pkg/controller/events.go: the last audit events of a cluster, in a ring. The mutex makes each operation
-- one step; `time.Now` is an argument.
pub mod Recent
pub mod Ring
use nullfield.Prelude.{
  ℕ, zero, suc, ◌+◌, ◌-◌, ◌%◌, String, not, ◌&&◌, List, [], ◌∷◌, Option, none, some, if◌then◌else◌,
  ltb, ◌==◌, ℤ, pos, negsuc, Map, get_elem?,
}

-- `AuditEvent`; nil `RuleIndex` and `Labels`, and a zero `Timestamp`, are `none`.
pub record AuditEvent : Type 0 where
  pub event_type : String
  pub method : String
  pub tool : String
  pub identity : String
  pub session_id : String
  pub gate : String
  pub reason_class : String
  pub rule_index : Option ℤ
  pub rule_id : String
  pub policy_ref : String
  pub registry_ref : String
  pub route : String
  pub labels : Option (Map String)
  pub reason : String
  pub target : String
  pub timestamp : Option ℕ

-- `EventBuffer`
pub record EventBuffer : Type 0 where
  pub buf : List AuditEvent
  pub size : ℕ
  pub position : ℕ
  pub count : ℕ

-- The zero `AuditEvent`, with which `make` fills the ring
abbrev pub no_event : AuditEvent
no_event = record {
  event_type = "";
  method = "";
  tool = "";
  identity = "";
  session_id = "";
  gate = "";
  reason_class = "";
  rule_index = none;
  rule_id = "";
  policy_ref = "";
  registry_ref = "";
  route = "";
  labels = none;
  reason = "";
  target = "";
  timestamp = none;
}

-- `make([]AuditEvent, n)`
unfoldable pub events_of : ℕ → List AuditEvent
events_of zero = []
events_of (suc n) = no_event ∷ events_of n

abbrev pub buffer_of : ℕ → EventBuffer
buffer_of size = record { buf = events_of size; size = size; position = 0; count = 0 }

-- `NewEventBuffer`
unfoldable pub new_event_buffer : ℤ → EventBuffer
unfolding events_of
new_event_buffer (pos zero) = buffer_of 1_000
new_event_buffer (pos (suc n)) = buffer_of (suc n)
new_event_buffer (negsuc n) = buffer_of 1_000

-- `b.buf[i] = e`; an index out of range, at which the source would panic, leaves the list as it is.
unfoldable pub store : List AuditEvent → ℕ → AuditEvent → List AuditEvent
store [] i e = []
store (x ∷ xs) zero e = e ∷ xs
store (x ∷ xs) (suc i) e = x ∷ store xs i e

abbrev pub stamped : AuditEvent → ℕ → AuditEvent
stamped e now = elim e.timestamp [ none ↦ record e { timestamp = some now } | some t ↦ e ]

-- `Add`
unfoldable pub add_event : EventBuffer → AuditEvent → ℕ → EventBuffer
unfolding store
add_event b e now = record b {
  buf = store b.buf b.position (stamped e now);
  position = (b.position + 1) % b.size;
  count = if ltb b.count b.size then suc b.count else b.count;
}

-- `b.buf[idx]` of the loop of `List`, where `i` is below `b.size`
abbrev pub nth_latest : EventBuffer → ℕ → Option AuditEvent
nth_latest b i = get_elem? b.buf ((b.position + b.size - 1 - i) % b.size)

-- The loop of `List` from `i` on, with the rounds that are left and the room that `out` has left
unfoldable pub collect : EventBuffer → String → ℕ → ℕ → ℕ → List AuditEvent
collect b event_type i zero room = []
collect b event_type i (suc rounds) zero = []
collect b event_type i (suc rounds) (suc room) =
    let skip = collect b event_type (suc i) rounds (suc room) in
    let keep = collect b event_type (suc i) rounds room in
    elim (nth_latest b i) [
      | none ↦ []
      | some e ↦
          if not (event_type == "") && not (e.event_type == event_type) then skip else e ∷ keep
    ]

unfoldable pub limit_of : ℤ → ℕ → ℕ
limit_of (pos zero) count = count
limit_of (pos (suc n)) count = if ltb count (suc n) then count else suc n
limit_of (negsuc n) count = count

-- `List`
unfoldable pub list_events : EventBuffer → String → ℤ → List AuditEvent
unfolding collect limit_of
list_events b event_type limit = collect b event_type 0 b.count (limit_of limit b.count)
