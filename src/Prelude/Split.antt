-- ===== src/Prelude/Split.antt =====
-- What the source uses of Go's `strings` to take texts apart, and how it goes back together.
use Prim.Native.Nat.{ℕ}
use Prim.Native.Char.{Char, code}
use Prim.Native.String.{String}
use mathlib.Core.Path.{◌≡◌, refl, sym, ap, ◌∙◌}
use mathlib.Core.Logic.{inl, inr}
use mathlib.Core.Bool.{Bool, true, false, not, ◌&&◌}
use mathlib.Core.Option.{Option, none, some}
use mathlib.Core.List.{List, [], ◌∷◌}
use native.Mathlib.Omega.{arith}
use text.Mathlib.TextEquality.{Char-path}
use text.Mathlib.TextLemmas.{nil-append, cons-append}
use nullfield.Prelude.Tests.{leb, Bool-cases, if◌then◌else◌}
use nullfield.Prelude.Lists.{All}
use nullfield.Prelude.Texts.{◌+++◌, join}

abbrev pub same_code : ℕ → ℕ → Bool
same_code c d = leb c d && leb d c

-- The character in front of the first of the texts.
abbrev pub prepend : Char → List String → List String
prepend c [] = String.◌∷◌ c "" ∷ []
prepend c (v ∷ vs) = String.◌∷◌ c v ∷ vs

-- `strings.Split` at a separator of one byte
unfoldable pub split_on : ℕ → String → List String
split_on sep String.[] = "" ∷ []
split_on sep (String.◌∷◌ c s) =
    let rest = split_on sep s in if same_code (code c) sep then "" ∷ rest else prepend c rest

-- `strings.Cut` at a separator of one byte: what is before it and what is behind it
unfoldable pub cut : ℕ → String → String × String
cut sep String.[] = ("", "")
cut sep (String.◌∷◌ c s) =
    let (before, after) = cut sep s in
    if same_code (code c) sep then ("", s) else (String.◌∷◌ c before, after)

unfoldable pub text_tail : String → String
text_tail String.[] = ""
text_tail (String.◌∷◌ c s) = s

-- The text without its last character, if that is the one asked for.
unfoldable pub without_last : ℕ → String → Option String
without_last last String.[] = none
without_last last (String.◌∷◌ c String.[]) = if same_code (code c) last then some "" else none
without_last last (String.◌∷◌ c (String.◌∷◌ d s)) = elim (without_last last (String.◌∷◌ d s)) [
  | none ↦ none
  | some t ↦ some (String.◌∷◌ c t)
]

-- `strings.CutPrefix`, and `none` without the prefix
unfoldable pub strip_prefix : String → String → Option String
strip_prefix String.[] t = some t
strip_prefix (String.◌∷◌ c s) String.[] = none
strip_prefix (String.◌∷◌ c s) (String.◌∷◌ d t) =
    let rest = strip_prefix s t in if same_code (code c) (code d) then rest else none

abbrev pub or_else : Option String → String → String
or_else none s = s
or_else (some t) s = t

-- The separator does not occur in the text.
unfoldable pub is_free : ℕ → String → Bool
is_free sep String.[] = true
is_free sep (String.◌∷◌ c s) = not (same_code (code c) sep) && is_free sep s

join-prepend :
    (sep : String) (c : Char) (v : String) (vs : List String)
    → join sep (prepend c (v ∷ vs)) ≡ String.◌∷◌ c (join sep (v ∷ vs))
unfolding join
join-prepend sep c v [] = refl
join-prepend sep c v (w ∷ vs) = cons-append c v (sep +++ join sep (w ∷ vs))

split_on-cons :
    (sep : ℕ) (s : String) → (v : String) × (vs : List String) × (split_on sep s ≡ v ∷ vs)
unfolding split_on
split_on-cons sep String.[] = ("", [], refl)
split_on-cons sep (String.◌∷◌ c s) =
    let (v, vs, e) = split_on-cons sep s in
    elim (Bool-cases (same_code (code c) sep)) [
      | inl here ↦ ("", split_on sep s, rw here refl)
      | inr later ↦ (String.◌∷◌ c v, vs, rw (later, e) refl)
    ]

join-separator :
    (d : Char) (v : String) (vs : List String)
    → join (String.◌∷◌ d "") ("" ∷ v ∷ vs) ≡ String.◌∷◌ d (join (String.◌∷◌ d "") (v ∷ vs))
unfolding join
join-separator d v vs = nil-append _ ∙ cons-append d "" _ ∙ ap (λ s. String.◌∷◌ d s) (nil-append _)

same_code-path : (c d : Char) → same_code (code c) (code d) ≡ true → c ≡ d
same_code-path c d h = Char-path c d (ground arith)

join-split_on_head :
    (d c : Char) (s : String)
    (p : (v : String) × (vs : List String) × (split_on (code d) s ≡ v ∷ vs))
    → join (String.◌∷◌ d "") (split_on (code d) s) ≡ s
    → join (String.◌∷◌ d "") (split_on (code d) (String.◌∷◌ c s)) ≡ String.◌∷◌ c s
unfolding split_on
join-split_on_head d c s (v, vs, e) h =
    let back : join (String.◌∷◌ d "") (v ∷ vs) ≡ s = rw (← e) h in
    elim (Bool-cases (same_code (code c) (code d))) [
      | inl here ↦
          rw (here, e)
            (join-separator d v vs
              ∙ rw back (ap (λ x. String.◌∷◌ x s) (sym (same_code-path c d here))))
      | inr later ↦ rw (later, e) (join-prepend (String.◌∷◌ d "") c v vs ∙ rw back refl)
    ]

-- What was split goes back together.
pub join-split_on : (d : Char) (s : String) → join (String.◌∷◌ d "") (split_on (code d) s) ≡ s
unfolding split_on join
join-split_on d String.[] = refl
join-split_on d (String.◌∷◌ c s) =
    join-split_on_head d c s (split_on-cons (code d) s) (join-split_on d s)

same_code_refl : (c : ℕ) → same_code c c ≡ true
same_code_refl c = ground arith

separated : (d : Char) (s : String) → String.◌∷◌ d "" +++ s ≡ String.◌∷◌ d s
separated d s = cons-append d "" s ∙ ap (λ x. String.◌∷◌ d x) (nil-append s)

free_parts : (a b : Bool) → not a && b ≡ true → (a ≡ false) × (b ≡ true)
free_parts a b e = ground arith

split_on-free : (sep : ℕ) (w : String) → is_free sep w ≡ true → split_on sep w ≡ w ∷ []
unfolding split_on is_free
split_on-free sep String.[] h = refl
split_on-free sep (String.◌∷◌ c w) h =
    let (here, rest) = free_parts (same_code (code c) sep) (is_free sep w) h in
    rw (here, split_on-free sep w rest) refl

split_on-append :
    (d : Char) (w t : String)
    → is_free (code d) w ≡ true
    → split_on (code d) (w +++ String.◌∷◌ d t) ≡ w ∷ split_on (code d) t
unfolding split_on is_free
split_on-append d String.[] t h =
    ap (split_on (code d)) (nil-append (String.◌∷◌ d t)) ∙ rw (same_code_refl (code d)) refl
split_on-append d (String.◌∷◌ c w) t h =
    let (here, rest) = free_parts (same_code (code c) (code d)) (is_free (code d) w) h in
    ap (split_on (code d)) (cons-append c w (String.◌∷◌ d t))
    ∙ rw (here, split_on-append d w t rest) refl

-- Texts in which the separator does not occur are found again, in order, in their join.
pub split_on-join :
    (d : Char) (v : String) (vs : List String)
    → All (λ w. is_free (code d) w ≡ true) (v ∷ vs)
    → split_on (code d) (join (String.◌∷◌ d "") (v ∷ vs)) ≡ v ∷ vs
unfolding join
split_on-join d v [] (h, _) = split_on-free (code d) v h
split_on-join d v (w ∷ vs) (h, rest) =
    ap (λ x. split_on (code d) (v +++ x)) (separated d (join (String.◌∷◌ d "") (w ∷ vs)))
    ∙ split_on-append d v (join (String.◌∷◌ d "") (w ∷ vs)) h
    ∙ ap (λ x. v ∷ x) (split_on-join d w vs rest)

pub strip_prefix-append : (s t : String) → strip_prefix s (s +++ t) ≡ some t
unfolding strip_prefix
strip_prefix-append String.[] t = ap (strip_prefix "") (nil-append t)
strip_prefix-append (String.◌∷◌ c s) t =
    ap (strip_prefix (String.◌∷◌ c s)) (cons-append c s t)
    ∙ rw (same_code_refl (code c)) (strip_prefix-append s t)
