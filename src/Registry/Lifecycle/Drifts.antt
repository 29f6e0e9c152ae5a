-- ===== src/Registry/Lifecycle/Drifts.antt =====
-- When pkg/registry/lifecycle.go reports that a tool has changed.
use nullfield.Prelude.{◌≡◌, ◌≢◌, String, Option, some}
use nullfield.Prelude.Dict.{Dict, lookup}
use nullfield.Api.{ToolRegistryEntry}
use nullfield.Registry.{Registry}
use nullfield.Registry.Lifecycle.{Hashing, compute_hash}

module _ (h : Hashing) where
  -- The live tool is registered under its name, with another hash.
  abbrev pub IsChanged : Dict ToolRegistryEntry → String × ToolRegistryEntry → Type 0
  IsChanged reg (name, live) =
      (t : ToolRegistryEntry) × (lookup name reg ≡ some t)
      × (compute_hash h t ≢ compute_hash h live)
