-- ===== src/Operations/Templates.antt =====
-- What a template of pkg/operations/operations.go matches, and what its parameters stand for.
use mathlib.Core.Option.{some-injective}
use nullfield.Prelude.{
  ◌≡◌, refl, sym, ◌∙◌, ap, ◌↔◌, ◌⊎◌, inl, inr, String, Bool, true, false, List, [], ◌∷◌, none, some,
  ◌==◌, eq_iff, eq_refl, arith, any, ok, length, equal_fold, is_some, Option-cases,
}
use nullfield.Prelude.Dict
use nullfield.Prelude.Dict.{Dict, lookup, lookup-put}
use nullfield.Operations.{Library, Operation, param, bind, template, match_op, names_once, validate}

-- Each segment is the template's, or stands at one of its parameters.
unfoldable pub Fits : List String → List String → Type 0
Fits [] [] = Unit
Fits [] (s ∷ segs) = ⊥
Fits (t ∷ tmpl) [] = ⊥
Fits (t ∷ tmpl) (s ∷ segs) = ((is_some (param t) ≡ true) ⊎ (t ≡ s)) × Fits tmpl segs

bind-Fits :
    (tmpl segs : List String) (params : Dict String)
    → length tmpl ≡ length segs
    → (is_some (bind tmpl segs params) ≡ true) ↔ Fits tmpl segs
unfolding bind Fits
bind-Fits [] [] params e = ((λ h. tt), λ h. refl)
bind-Fits [] (s ∷ segs) params e = absurd (ground arith)
bind-Fits (t ∷ tmpl) [] params e = absurd (ground arith)
bind-Fits (t ∷ tmpl) (s ∷ segs) params e = elim (Option-cases (param t)) [
  | inl plain ↦ ground (arith, eq_iff t s, bind-Fits tmpl segs params)
  | inr (p, named) ↦ ground (arith, eq_iff t s, bind-Fits tmpl segs (Dict.put p s params))
]

length_of_Fits : (tmpl segs : List String) → Fits tmpl segs → length tmpl ≡ length segs
unfolding Fits
length_of_Fits [] [] h = refl
length_of_Fits [] (s ∷ segs) h = absurd h
length_of_Fits (t ∷ tmpl) [] h = absurd h
length_of_Fits (t ∷ tmpl) (s ∷ segs) h = omega (arith, length_of_Fits tmpl segs h.1)

-- An operation matches a call exactly if the methods are equal but for their case and the segments
-- of the path fit its template, one for one.
pub match_op_iff :
    (op : Operation) (method : String) (segs : List String)
    → (is_some (match_op op method segs) ≡ true)
      ↔ ((equal_fold method op.method ≡ true) × Fits (template op) segs)
unfolding match_op
match_op_iff op method segs =
    ground (arith, bind-Fits (template op) segs [], length_of_Fits (template op) segs)

-- Each parameter of the template has the segment that stands at it.
unfoldable pub Binds : List String → List String → Dict String → Type 0
Binds [] segs params = Unit
Binds (t ∷ tmpl) [] params = Unit
Binds (t ∷ tmpl) (s ∷ segs) params =
    ((p : String) → param t ≡ some p → lookup p params ≡ some s) × Binds tmpl segs params

abbrev is_seen : String → List String → Bool
is_seen p seen = any (λ q. q == p) seen

names_once-cons :
    (t p : String) (tmpl seen : List String)
    → param t ≡ some p
    → names_once (t ∷ tmpl) seen ≡ true
    → (is_seen p seen ≡ false) × (names_once tmpl (p ∷ seen) ≡ true)
unfolding names_once
names_once-cons t p tmpl seen named h = ground arith

names_once-plain :
    (t : String) (tmpl seen : List String)
    → param t ≡ none
    → names_once (t ∷ tmpl) seen ≡ true
    → names_once tmpl seen ≡ true
unfolding names_once
names_once-plain t tmpl seen plain h = ground arith

bind-plain :
    (t s : String) (tmpl segs : List String) (params last : Dict String)
    → param t ≡ none
    → bind (t ∷ tmpl) (s ∷ segs) params ≡ some last
    → bind tmpl segs params ≡ some last
unfolding bind
bind-plain t s tmpl segs params last plain e = ground arith

bind-named :
    (t s p : String) (tmpl segs : List String) (params last : Dict String)
    → param t ≡ some p
    → bind (t ∷ tmpl) (s ∷ segs) params ≡ some last
    → bind tmpl segs (Dict.put p s params) ≡ some last
unfolding bind
bind-named t s p tmpl segs params last named e = ground arith

is_seen-ne :
    (p q : String) (seen : List String)
    → is_seen p seen ≡ false
    → is_seen q seen ≡ true
    → (p == q) ≡ false
is_seen-ne p q [] h k = absurd (ground arith)
is_seen-ne p q (r ∷ seen) h k =
    ground (arith, eq_iff p q, eq_iff r q, eq_iff r p, is_seen-ne p q seen)

-- Binding leaves alone what was bound for the parameters seen before.
bind-seen :
    (tmpl segs seen : List String) (params last : Dict String) (q : String)
    → names_once tmpl seen ≡ true
    → is_seen q seen ≡ true
    → bind tmpl segs params ≡ some last
    → lookup q last ≡ lookup q params
unfolding bind
bind-seen [] segs seen params last q once h e = ap (lookup q) (sym (some-injective params last e))
bind-seen (t ∷ tmpl) [] seen params last q once h e =
    ap (lookup q) (sym (some-injective params last e))
bind-seen (t ∷ tmpl) (s ∷ segs) seen params last q once h e =
    elim (Option-cases (param t)) as (λ _. lookup q last ≡ lookup q params) [
      | inl plain ↦
          bind-seen tmpl segs seen params last q (names_once-plain t tmpl seen plain once) h
            (bind-plain t s tmpl segs params last plain e)
      | inr (p, named) ↦
          let (unseen, rest) = names_once-cons t p tmpl seen named once in
          bind-seen tmpl segs (p ∷ seen) (Dict.put p s params) last q rest (ground arith)
            (bind-named t s p tmpl segs params last named e)
          ∙ lookup-put p q s params
          ∙ rw (is_seen-ne p q seen unseen h) refl
    ]

bind-Binds :
    (tmpl segs seen : List String) (params last : Dict String)
    → names_once tmpl seen ≡ true
    → bind tmpl segs params ≡ some last
    → Binds tmpl segs last
unfolding Binds
bind-Binds [] segs seen params last once e = tt
bind-Binds (t ∷ tmpl) [] seen params last once e = tt
bind-Binds (t ∷ tmpl) (s ∷ segs) seen params last once e =
    elim (Option-cases (param t)) as (λ _. Binds (t ∷ tmpl) (s ∷ segs) last) [
      | inl plain ↦ (
        (λ p named. ground arith),
        bind-Binds tmpl segs seen params last (names_once-plain t tmpl seen plain once)
            (bind-plain t s tmpl segs params last plain e),
      )
      | inr (p, named) ↦
          let (unseen, rest) = names_once-cons t p tmpl seen named once in
          let run = bind-named t s p tmpl segs params last named e in
          (
            (λ p' named'.
                ap (λ x. lookup x last) (some-injective p' p (sym named' ∙ named))
                ∙ bind-seen tmpl segs (p ∷ seen) (Dict.put p s params) last p rest
                    (ground (arith, eq_refl p)) run
                ∙ lookup-put p p s params
                ∙ rw (eq_refl p) refl),
            bind-Binds tmpl segs (p ∷ seen) (Dict.put p s params) last rest run,
          )
    ]

validate_once :
    (lib : Library) (op : Operation) → validate lib op ≡ ok tt → names_once (template op) [] ≡ true
unfolding validate
validate_once lib op h = ground arith

match_op-bind :
    (op : Operation) (method : String) (segs : List String) (params : Dict String)
    → match_op op method segs ≡ some params
    → bind (template op) segs [] ≡ some params
unfolding match_op
match_op-bind op method segs params e = ground arith

-- Where an operation that was validated matches a call, every parameter of its template is bound
-- to the very segment that stands at it: no later parameter takes the place of an earlier one.
pub match_op-Binds :
    (lib : Library) (op : Operation) (method : String) (segs : List String) (params : Dict String)
    → validate lib op ≡ ok tt
    → match_op op method segs ≡ some params
    → Binds (template op) segs params
match_op-Binds lib op method segs params valid e =
    bind-Binds (template op) segs [] [] params (validate_once lib op valid)
      (match_op-bind op method segs params e)
