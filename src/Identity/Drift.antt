-- ===== src/Identity/Drift.antt =====
-- pkg/identity/drift.go: a session's scopes and groups are not to change. `sort.Strings` and the
-- verb %q are parameters.
pub mod Baseline
use nullfield.Prelude.{
  String, Bool, true, false, not, List, [], ◌∷◌, ◌++◌, Option, none, some, ◌==◌, if◌then◌else◌,
  ◌+++◌, join, is_empty, Map, empty, insert, delete,
}
use nullfield.Identity.{Identity}

-- `claimsSnapshot`
pub record ClaimsSnapshot : Type 0 where
  pub scopes : String
  pub groups : String

-- `DriftDetector`
pub record DriftDetector : Type 0 where
  pub sessions : Map ClaimsSnapshot

-- `NewDriftDetector`
unfoldable pub new_drift_detector : DriftDetector
new_drift_detector = record { sessions = empty }

-- `sort.Strings` and %q
pub record Wording : Type 0 where
  pub sort : List String → List String
  pub quote : String → String

-- `Clear`
abbrev pub clear : DriftDetector → String → DriftDetector
clear d session = record { sessions = delete session d.sessions }

-- `Sweep`
abbrev pub sweep_all : DriftDetector → DriftDetector
sweep_all d = record { sessions = empty }

module _ (w : Wording) where
  -- `normalizeSlice`
  unfoldable pub normalize_slice : List String → String
  unfolding join
  normalize_slice [] = ""
  normalize_slice (s ∷ texts) = join "," (w.sort (s ∷ texts))

  abbrev drift : String → String → String → List String
  drift what old current =
      if old == current
      then []
      else (what +++ " changed: " +++ w.quote old +++ " → " +++ w.quote current) ∷ []

  -- What `Check` lists of a session that is known.
  unfoldable pub drifts : ClaimsSnapshot → Identity → List String
  unfolding normalize_slice
  drifts snap id =
      drift "scopes" snap.scopes (normalize_slice id.scopes)
      ++ drift "groups" snap.groups (normalize_slice id.groups)

  -- `Check` of an identity whose session is named, on what is stored for the session.
  unfoldable pub check_found :
      Option ClaimsSnapshot → DriftDetector → Identity → DriftDetector × Option String
  unfolding drifts normalize_slice
  check_found none d id = (
    record {
      sessions =
          insert id.session_id
            (record { scopes = normalize_slice id.scopes; groups = normalize_slice id.groups })
            d.sessions;
    },
    none,
  )
  check_found (some snap) d id = (
    d,
    if is_empty (drifts snap id)
        then none
        else some ("claims drift detected: " +++ join "; " (drifts snap id)),
  )

  -- `Check`
  unfoldable pub check_claims : DriftDetector → Option Identity → DriftDetector × Option String
  unfolding check_found
  check_claims d none = (d, none)
  check_claims d (some id) =
      if id.session_id == "" then (d, none) else check_found (d.sessions id.session_id) d id
