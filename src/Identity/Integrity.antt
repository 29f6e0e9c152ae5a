-- ===== src/Identity/Integrity.antt =====
-- pkg/identity/integrity.go: the binding of sessions and the detection of replays. `time.Now` and
-- the verb %q are arguments; each nil pointer of the checker is `none`.
pub mod Sessions
pub mod Replays
use nullfield.Prelude.{
  ℕ, zero, suc, ◌*◌, String, Bool, true, false, not, ◌&&◌, Option, none, some, ◌==◌, if◌then◌else◌,
  ◌+++◌, is_some, ℤ, pos, negsuc, Map, empty, insert, delete, sweep_if,
}
use nullfield.Times.{minute, elapsed_gt}
use nullfield.Identity.{Identity}

-- `SessionBinder`
pub record SessionBinder : Type 0 where
  pub sessions : Map String

-- `NewSessionBinder`
abbrev pub new_session_binder : SessionBinder
new_session_binder = record { sessions = empty }

-- `ReplayDetector`
pub record ReplayDetector : Type 0 where
  pub seen : Map ℕ
  pub max_age : ℤ

abbrev is_zero : ℤ → Bool
is_zero (pos zero) = true
is_zero (pos (suc n)) = false
is_zero (negsuc n) = false

-- `NewReplayDetector`
abbrev pub new_replay_detector : ℤ → ReplayDetector
new_replay_detector max_age = record {
  seen = empty;
  max_age = if is_zero max_age then pos (10 * minute) else max_age;
}

-- `IntegrityConfig`
pub record IntegrityConfig : Type 0 where
  pub bind_to_session : Bool
  pub detect_replay : Bool
  pub replay_max_age : ℤ

-- `IntegrityChecker`
pub record IntegrityChecker : Type 0 where
  pub binder : Option SessionBinder
  pub detector : Option ReplayDetector
  pub bind_enabled : Bool
  pub replay_enabled : Bool

-- `NewIntegrityChecker`
unfoldable pub new_integrity_checker : IntegrityConfig → IntegrityChecker
new_integrity_checker cfg = record {
  binder = if cfg.bind_to_session then some new_session_binder else none;
  detector = if cfg.detect_replay then some (new_replay_detector cfg.replay_max_age) else none;
  bind_enabled = cfg.bind_to_session;
  replay_enabled = cfg.detect_replay;
}

-- `Clear`
abbrev pub clear_session : SessionBinder → String → SessionBinder
clear_session b session = record { sessions = delete session b.sessions }

module _ (quote : String → String) where
  unfoldable pub bind_found :
      Option String → SessionBinder → String → String → SessionBinder × Option String
  bind_found none b session subject =
      (record { sessions = insert session subject b.sessions }, none)
  bind_found (some existing) b session subject = (
    b,
    if existing == subject
        then none
        else some (
            "identity changed mid-session: was " +++ quote existing +++ ", now " +++ quote subject),
  )

  -- `Bind`
  unfoldable pub bind_session : SessionBinder → String → String → SessionBinder × Option String
  unfolding bind_found
  bind_session b session subject =
      if session == "" then (b, none) else bind_found (b.sessions session) b session subject

  -- `Check` of the detector
  unfoldable pub check_replay : ReplayDetector → String → ℕ → ReplayDetector × Option String
  check_replay d jti now =
      if jti == ""
      then (d, none)
      else if is_some (d.seen jti)
      then (d, some ("token replay detected: jti " +++ quote jti +++ " already used"))
      else (record d { seen = insert jti now d.seen }, none)

  unfoldable pub bind_with :
      Option SessionBinder → IntegrityChecker → Identity → IntegrityChecker × Option String
  unfolding bind_session
  bind_with none ic id = (ic, none)
  bind_with (some b) ic id =
      if ic.bind_enabled
      then (
        record ic { binder = some (bind_session b id.session_id id.subject).0 },
        (bind_session b id.session_id id.subject).1,
      )
      else (ic, none)

  unfoldable pub replay_with :
      Option ReplayDetector → IntegrityChecker → Identity → ℕ → IntegrityChecker × Option String
  unfolding check_replay
  replay_with none ic id now = (ic, none)
  replay_with (some d) ic id now =
      if ic.replay_enabled
      then (
        record ic { detector = some (check_replay d id.jti now).0 },
        (check_replay d id.jti now).1,
      )
      else (ic, none)

  -- `Check` of the checker, given what its first half did
  unfoldable pub check_bound :
      IntegrityChecker × Option String → Identity → ℕ → IntegrityChecker × Option String
  unfolding replay_with
  check_bound (ic, some e) id now = (ic, some e)
  check_bound (ic, none) id now = replay_with ic.detector ic id now

  -- `Check` of the checker
  unfoldable pub check_integrity :
      IntegrityChecker → Identity → ℕ → IntegrityChecker × Option String
  unfolding bind_with check_bound
  check_integrity ic id now = check_bound (bind_with ic.binder ic id) id now

-- `Sweep` of the detector
unfoldable pub sweep_seen : ReplayDetector → ℕ → ReplayDetector
sweep_seen d now = record d { seen = sweep_if (λ t. elapsed_gt now t d.max_age) d.seen }

-- `Sweep` of the checker
unfoldable pub sweep_checker : IntegrityChecker → ℕ → IntegrityChecker
unfolding sweep_seen
sweep_checker ic now = elim ic.detector [
  | none ↦ ic
  | some d ↦ record ic { detector = some (sweep_seen d now) }
]
