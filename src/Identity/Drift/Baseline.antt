-- ===== src/Identity/Drift/Baseline.antt =====
-- What pkg/identity/drift.go holds a session to.
use nullfield.Prelude.{List, [], ◌∷◌, Option}
use nullfield.Identity.{Identity}
use nullfield.Identity.Drift.{DriftDetector, Wording, check_claims}

module _ (w : Wording) where
  -- The detector after a series of checks.
  unfoldable pub check_all : DriftDetector → List (Option Identity) → DriftDetector
  check_all d [] = d
  check_all d (id ∷ ids) = check_all (check_claims w d id).0 ids
