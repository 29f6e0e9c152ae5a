-- ===== src/Registry/Lifecycle.antt =====
-- pkg/registry/lifecycle.go: how the tools that a server offers differ from those that are
-- registered. `sort.Slice` by the tools' names, and the SHA-256 of the JSON that `computeCanonical`
-- builds, are parameters.
pub mod Drifts
use nullfield.Prelude.{
  ℕ, ◌+◌, String, Bool, true, false, not, ◌&&◌, ◌||◌, List, [], ◌∷◌, ◌++◌, Option, none, some, ◌==◌,
  if◌then◌else◌, ltb, length, is_empty, is_some, keep_last, ℤ, positive_or, map,
}
use nullfield.Prelude.Dict
use nullfield.Prelude.Dict.{Dict}
use nullfield.Api.{ToolRegistryEntry}
use nullfield.Registry.{Registry}

-- `DriftType`
pub data DriftType : Type 0 where
  drift_added drift_removed drift_changed : DriftType

-- `DriftEntry`
pub record DriftEntry : Type 0 where
  pub tool_name : String
  pub type : DriftType
  pub previous_hash : String
  pub current_hash : String
  pub detected_at : ℕ

-- `IsRugPull`
abbrev pub is_rug_pull : DriftEntry → Bool
is_rug_pull d = elim d.type [ drift_added ↦ false | drift_removed ↦ false | drift_changed ↦ true ]

-- `DriftReport`
pub record DriftReport : Type 0 where
  pub timestamp : ℕ
  pub added : List DriftEntry
  pub removed : List DriftEntry
  pub changed : List DriftEntry

-- `HasDrift`
unfoldable pub has_drift : DriftReport → Bool
has_drift r = not (is_empty r.added) || not (is_empty r.removed) || not (is_empty r.changed)

-- `HasRugPull`
unfoldable pub has_rug_pull : DriftReport → Bool
has_rug_pull r = not (is_empty r.changed)

-- `RugPulls`
abbrev pub rug_pulls : DriftReport → List DriftEntry
rug_pulls r = r.changed

-- `Snapshot`
pub record Snapshot : Type 0 where
  pub timestamp : ℕ
  pub tools : Dict ToolRegistryEntry
  pub hashes : Dict String

-- `LifecycleTracker`
pub record LifecycleTracker : Type 0 where
  pub snapshots : List Snapshot
  pub max_hist : ℕ

-- `NewLifecycleTracker`
unfoldable pub new_lifecycle_tracker : ℤ → LifecycleTracker
new_lifecycle_tracker max_history = record { snapshots = []; max_hist = positive_or max_history 10 }

-- What the code relies on: the digest of a tool's name, description and scopes, and the sort.
pub record Hashing : Type 0 where
  pub canonical : String → String → List String → String
  pub sort : List DriftEntry → List DriftEntry

-- The map of the live tools, in which a later tool takes the place of an earlier one.
unfoldable pub live_map : List ToolRegistryEntry → Dict ToolRegistryEntry → Dict ToolRegistryEntry
live_map [] m = m
live_map (t ∷ tools) m = live_map tools (Dict.put t.name t m)

module _ (h : Hashing) where
  -- `computeCanonical`
  abbrev pub compute_canonical : ToolRegistryEntry → String
  compute_canonical entry = h.canonical entry.name entry.description entry.allowed_scopes

  -- `ComputeHash`, and `computeHashWithOverride`, whose body is the same
  unfoldable pub compute_hash : ToolRegistryEntry → String
  compute_hash entry =
      if entry.signature_hash == "" then compute_canonical entry else entry.signature_hash

  -- `Snapshot` of the tracker
  unfoldable pub take_snapshot : LifecycleTracker → Registry → ℕ → LifecycleTracker × Snapshot
  unfolding compute_hash
  take_snapshot lt r now =
      let snap : Snapshot = record {
        timestamp = now;
        tools = r.tools;
        hashes = map (λ t. (t.0, compute_hash t.1)) r.tools;
      } in
      let grown = lt.snapshots ++ snap ∷ [] in
      (
        record lt {
          snapshots = if ltb lt.max_hist (length grown) then keep_last lt.max_hist grown else grown;
        },
        snap,
      )

  -- One round of the first loop of `Reconcile`, on what the later rounds find.
  unfoldable pub compare_tool :
      Option ToolRegistryEntry
      → String
      → ToolRegistryEntry
      → ℕ
      → List DriftEntry × List DriftEntry
      → List DriftEntry × List DriftEntry
  unfolding compute_hash
  compare_tool none name live now (fresh, differing) = (
    record {
      tool_name = name;
      type = drift_added;
      previous_hash = "";
      current_hash = compute_hash live;
      detected_at = now;
    }
        ∷ fresh,
    differing,
  )
  compare_tool (some registered) name live now (fresh, differing) =
      if compute_hash registered == compute_hash live then (fresh, differing) else (
        fresh,
        record {
          tool_name = name;
          type = drift_changed;
          previous_hash = compute_hash registered;
          current_hash = compute_hash live;
          detected_at = now;
        }
            ∷ differing,
      )

  -- The first loop of `Reconcile`: what is added, and what is changed.
  unfoldable pub compare_live :
      Dict ToolRegistryEntry → Dict ToolRegistryEntry → ℕ → List DriftEntry × List DriftEntry
  unfolding compare_tool
  compare_live reg [] now = ([], [])
  compare_live reg ((name, live) ∷ tools) now =
      compare_tool (Dict.lookup name reg) name live now (compare_live reg tools now)

  -- The second loop of `Reconcile`: what is removed.
  unfoldable pub missing_live :
      Dict ToolRegistryEntry → Dict ToolRegistryEntry → ℕ → List DriftEntry
  unfolding compute_hash
  missing_live [] live now = []
  missing_live ((name, registered) ∷ tools) live now =
      let rest = missing_live tools live now in
      if is_some (Dict.lookup name live)
      then rest
      else record {
        tool_name = name;
        type = drift_removed;
        previous_hash = compute_hash registered;
        current_hash = "";
        detected_at = now;
      }
        ∷ rest

  -- `Reconcile`
  unfoldable pub reconcile : Registry → List ToolRegistryEntry → ℕ → DriftReport
  unfolding compare_live missing_live live_map
  reconcile r live_tools now =
      let live = live_map live_tools [] in
      record {
        timestamp = now;
        added = h.sort (compare_live r.tools live now).0;
        removed = h.sort (missing_live r.tools live now);
        changed = h.sort (compare_live r.tools live now).1;
      }
