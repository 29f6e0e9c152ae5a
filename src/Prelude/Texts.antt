-- ===== src/Prelude/Texts.antt =====
-- What the source uses of Go's `strings` and `fmt`, over native texts.
use Prim.Native.Nat.{ℕ, zero, suc, ◌/◌, ◌%◌}
use Prim.Native.Char.{code}
use Prim.Native.String
use Prim.Native.String.{String}
use mathlib.Core.Bool.{Bool, true, false, ◌&&◌, ◌||◌}
use mathlib.Core.List.{List, [], ◌∷◌}
use mathlib.Core.Path.{◌≡◌}
use mathlib.Core.Logic.{◌≢◌}
use native.Mathlib.Omega.{arith}
use text.Mathlib.Text.{◌==◌}
use text.Mathlib.TextEquality.{eq_iff}
use nullfield.Prelude.Tests.{ltb, leb}
use nullfield.Prelude.Int.{ℤ, pos, negsuc}
use nullfield.Prelude.Folding.{fold_rune}

infixr 65 ◌+++◌
abbrev pub ◌+++◌ : String → String → String
s +++ t = String.◌++◌ s t

-- The last text stands for every index past it; it is used below ten only.
abbrev digit : ℕ → String
digit zero = "0"
digit (suc zero) = "1"
digit (suc (suc zero)) = "2"
digit (suc (suc (suc zero))) = "3"
digit (suc (suc (suc (suc zero)))) = "4"
digit (suc (suc (suc (suc (suc zero))))) = "5"
digit (suc (suc (suc (suc (suc (suc zero)))))) = "6"
digit (suc (suc (suc (suc (suc (suc (suc zero))))))) = "7"
digit (suc (suc (suc (suc (suc (suc (suc (suc zero)))))))) = "8"
digit _ = "9"

-- Every round divides by ten, so as much fuel as the number plus one is never used up.
decimal_from : ℕ → ℕ → String → String
decimal_from zero n acc = acc
decimal_from (suc fuel) n acc = elim (ltb n 10) [
  | true ↦ digit n +++ acc
  | false ↦ decimal_from fuel (n / 10) (digit (n % 10) +++ acc)
]

-- `%d` of a count, and of an `int`
unfoldable pub decimal : ℕ → String
unfolding decimal_from
decimal n = decimal_from (suc n) n ""

unfoldable pub decimal_int : ℤ → String
unfolding decimal
decimal_int (pos n) = decimal n
decimal_int (negsuc n) = "-" +++ decimal (suc n)

unfoldable pub is_prefix : String → String → Bool
is_prefix String.[] t = true
is_prefix (String.◌∷◌ c s) String.[] = false
is_prefix (String.◌∷◌ c s) (String.◌∷◌ d t) =
    leb (code c) (code d) && leb (code d) (code c) && is_prefix s t

-- `strings.Contains(t, s)`
unfoldable pub contains : String → String → Bool
unfolding is_prefix
contains String.[] s = is_prefix s ""
contains (String.◌∷◌ d t) s = is_prefix s (String.◌∷◌ d t) || contains t s

-- `strings.EqualFold`
unfoldable pub equal_fold : String → String → Bool
unfolding fold_rune
equal_fold String.[] String.[] = true
equal_fold String.[] (String.◌∷◌ d t) = false
equal_fold (String.◌∷◌ c s) String.[] = false
equal_fold (String.◌∷◌ c s) (String.◌∷◌ d t) =
    leb (fold_rune (code c)) (fold_rune (code d))
    && leb (fold_rune (code d)) (fold_rune (code c))
    && equal_fold s t

-- `strings.Join`
unfoldable pub join : String → List String → String
join sep [] = ""
join sep (s ∷ []) = s
join sep (s ∷ t ∷ rest) = s +++ sep +++ join sep (t ∷ rest)

pub ne_of_eq-false : (s t : String) → (s == t) ≡ false → s ≢ t
ne_of_eq-false s t h e = ground (arith, eq_iff s t)
