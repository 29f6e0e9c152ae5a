-- ===== src/Anomaly/Sequence.antt =====
-- pkg/anomaly/sequence.go: suspicious orders of tool calls within a session.
pub mod Matching
use nullfield.Prelude.{
  ℕ, suc, String, Bool, true, false, ◌||◌, List, [], ◌∷◌, ◌++◌, Option, none, some, ◌==◌,
  if◌then◌else◌, ltb, length, is_empty, keep_last, ℤ, positive_or, Map, empty, insert, sweep_if,
}
use nullfield.Anomaly.Velocity.{alert_action_log, alert_action_deny}

-- `SequencePattern`
pub record SequencePattern : Type 0 where
  pub name : String
  pub tools : List String
  pub alert_action : String

-- `SequenceAlert`
pub record SequenceAlert : Type 0 where
  pub pattern : String
  pub tools : List String
  pub identity : String
  pub session_id : String
  pub action : String

-- `SequenceConfig`
pub record SequenceConfig : Type 0 where
  pub patterns : List SequencePattern
  pub max_history : ℤ

-- `SequenceTracker`
pub record SequenceTracker : Type 0 where
  pub patterns : List SequencePattern
  pub sessions : Map (List String)
  pub max_hist : ℕ

-- `NewSequenceTracker`
pub new : SequenceConfig → SequenceTracker
new cfg = record {
  patterns = cfg.patterns;
  sessions = empty;
  max_hist = positive_or cfg.max_history 20;
}

-- The loop of `matchesSequence`: the second list is what is left of the pattern from `pi` on.
pub scan : List String → List String → Bool
scan [] wanted = is_empty wanted
scan (tool ∷ history) [] = true
scan (tool ∷ history) (next ∷ wanted) =
    scan history (if tool == next then wanted else next ∷ wanted)

-- `matchesSequence`
pub matches_sequence : List String → List String → Bool
matches_sequence history pattern' =
    if is_empty pattern' || ltb (length history) (length pattern')
    then false
    else scan history pattern'

abbrev pub history_of : Option (List String) → List String
history_of none = []
history_of (some history) = history

-- The loop of `Record` over the patterns.
pub first_match : List SequencePattern → List String → String → String → Option SequenceAlert
first_match [] history session identity = none
first_match (p ∷ patterns) history session identity =
    if matches_sequence history p.tools
    then some (record {
      pattern = p.name;
      tools = p.tools;
      identity = identity;
      session_id = session;
      action = if p.alert_action == "DENY" then alert_action_deny else alert_action_log;
    })
    else first_match patterns history session identity

-- The history that `Record` stores.
pub extended : SequenceTracker → String → String → List String
extended t session tool = keep_last t.max_hist (history_of (t.sessions session) ++ tool ∷ [])

-- `Record`
pub record_call :
    SequenceTracker → String → String → String → SequenceTracker × Option SequenceAlert
record_call t session tool identity = if session == "" || is_empty t.patterns then (t, none) else (
  record t { sessions = insert session (extended t session tool) t.sessions },
  first_match t.patterns (extended t session tool) session identity,
)

-- `Sweep`
abbrev pub sweep : SequenceTracker → SequenceTracker
sweep t = record t { sessions = sweep_if is_empty t.sessions }
