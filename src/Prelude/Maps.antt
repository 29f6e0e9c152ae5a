-- ===== src/Prelude/Maps.antt =====
-- A Go map with text keys, where the source looks up, writes, deletes and filters entries and
-- never counts or lists them: the function that its lookups compute.
use Prim.Native.String.{String}
use mathlib.Core.Bool.{Bool}
use mathlib.Core.Option.{Option, none, some}
use text.Mathlib.Text.{◌==◌}
use nullfield.Prelude.Tests.{if◌then◌else◌}

abbrev pub Map {ℓ} : Type ℓ → Type ℓ
Map V = String → Option V

module _ {ℓ} {V : Type ℓ} where
  abbrev pub empty : Map V
  empty k = none

  abbrev pub insert : String → V → Map V → Map V
  insert k v m j = if k == j then some v else m j

  abbrev pub delete : String → Map V → Map V
  delete k m j = if k == j then none else m j

  -- `for k, v := range m { if drop(v) { delete(m, k) } }`
  abbrev pub sweep_if : (V → Bool) → Map V → Map V
  sweep_if drop m j = elim (m j) [ none ↦ none | some v ↦ if drop v then none else some v ]
