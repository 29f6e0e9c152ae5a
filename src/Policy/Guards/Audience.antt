-- ===== src/Policy/Guards/Audience.antt =====
-- What the audiences of claims are, and when pkg/policy/rules.go finds that they narrow.
use nullfield.Prelude.{
  ◌≡◌, refl, sym, ◌∙◌, ◌↔◌, inl, inr, String, true, List, [], ◌∷◌, Option, none, some, ◌==◌, eq_iff,
  arith, ◌⊎◌, any, All, Any, Bool-cases, if◌then◌else◌, ◌≢◌,
}
use mathlib.Core.Path.{subst}
use nullfield.Value.{
  Items, nil, cons, Value, null, bool, number, text, texts, list, object, Fields, lookup,
}
use nullfield.Policy.Guards.{
  item_texts, audiences, claim_audiences, audience_is_subset, audience_narrows,
}

-- `child` names no audience beyond those of `parent`.
abbrev Narrows : List String → List String → Type 0
Narrows child parent = All (λ a. Any (λ p. p ≡ a) parent) child

any_equal_iff :
    (a : String) (xs : List String) → (any (λ p. p == a) xs ≡ true) ↔ Any (λ p. p ≡ a) xs
any_equal_iff a [] = ((λ h. cc), λ h. absurd h)
any_equal_iff a (x ∷ xs) = ground (arith, eq_iff x a, any_equal_iff a xs)

audience_is_subset_iff :
    (child parent : List String) → (audience_is_subset child parent ≡ true) ↔ Narrows child parent
unfolding audience_is_subset
audience_is_subset_iff [] parent = ((λ _. tt), λ _. refl)
audience_is_subset_iff (a ∷ child) parent =
    ground (arith, any_equal_iff a parent, audience_is_subset_iff child parent)

InItems : String → Items → Type 0
InItems a nil = ⊥
InItems a (cons (text s) vs) = ((s ≡ a) × (a ≢ "")) ⊎ InItems a vs
InItems a (cons null vs) = InItems a vs
InItems a (cons (bool _) vs) = InItems a vs
InItems a (cons (number _) vs) = InItems a vs
InItems a (cons (texts _) vs) = InItems a vs
InItems a (cons (list _) vs) = InItems a vs
InItems a (cons (object _) vs) = InItems a vs

AudienceOf : Option Value → String → Type 0
AudienceOf none a = ⊥
AudienceOf (some (text s)) a = (s ≡ a) × (a ≢ "")
AudienceOf (some (list vs)) a = InItems a vs
AudienceOf (some (texts ss)) a = Any (λ p. p ≡ a) ss
AudienceOf (some null) a = ⊥
AudienceOf (some (bool _)) a = ⊥
AudienceOf (some (number _)) a = ⊥
AudienceOf (some (object _)) a = ⊥

-- The "aud" of the claims is the text `a`, which is not empty, or a list in which `a` stands.
pub HasAudience : Fields → String → Type 0
unfolding AudienceOf
HasAudience claims a = AudienceOf (lookup "aud" claims) a

one_audience :
    (s a : String) → Any (λ p. p ≡ a) (if s == "" then [] else s ∷ []) ↔ ((s ≡ a) × (a ≢ ""))
one_audience s a = elim (Bool-cases (s == "")) [
  | inl e ↦
      let blank = (eq_iff s "").0 e in rw e ((λ h. absurd h), λ h. absurd (h.1 (sym h.0 ∙ blank)))
  | inr e ↦ rw e (
    (λ h. elim h [
      | inl same ↦ (same, λ blank. ground (arith, eq_iff s ""))
      | inr nothing ↦ absurd nothing
    ]),
    λ h. inl h.0,
  )
]

item_texts_iff : (a : String) (vs : Items) → Any (λ p. p ≡ a) (item_texts vs) ↔ InItems a vs
unfolding item_texts InItems
item_texts_iff a nil = ((λ h. h), λ h. h)
item_texts_iff a (cons (text s) vs) = elim (Bool-cases (s == "")) [
  | inl e ↦
      let blank = (eq_iff s "").0 e in
      let (to, back) = item_texts_iff a vs in
      rw e (
        (λ h. inr (to h)),
        λ h. elim h [ inl here ↦ absurd (here.1 (sym here.0 ∙ blank)) | inr rest ↦ back rest ],
      )
  | inr e ↦
      let (to, back) = item_texts_iff a vs in
      rw e (
        (λ h. elim h [
          | inl same ↦ inl (same, λ blank. ground (arith, eq_iff s ""))
          | inr rest ↦ inr (to rest)
        ]),
        λ h. elim h [ inl here ↦ inl here.0 | inr rest ↦ inr (back rest) ],
      )
]
item_texts_iff a (cons null vs) = item_texts_iff a vs
item_texts_iff a (cons (bool _) vs) = item_texts_iff a vs
item_texts_iff a (cons (number _) vs) = item_texts_iff a vs
item_texts_iff a (cons (texts _) vs) = item_texts_iff a vs
item_texts_iff a (cons (list _) vs) = item_texts_iff a vs
item_texts_iff a (cons (object _) vs) = item_texts_iff a vs

audiences_iff : (v : Option Value) (a : String) → Any (λ p. p ≡ a) (audiences v) ↔ AudienceOf v a
unfolding audiences AudienceOf
audiences_iff none a = ((λ h. h), λ h. h)
audiences_iff (some (text s)) a = one_audience s a
audiences_iff (some (list vs)) a = item_texts_iff a vs
audiences_iff (some (texts ss)) a = ((λ h. h), λ h. h)
audiences_iff (some null) a = ((λ h. h), λ h. h)
audiences_iff (some (bool _)) a = ((λ h. h), λ h. h)
audiences_iff (some (number _)) a = ((λ h. h), λ h. h)
audiences_iff (some (object _)) a = ((λ h. h), λ h. h)

claim_audiences_iff :
    (claims : Fields) (a : String)
    → Any (λ p. p ≡ a) (claim_audiences claims) ↔ HasAudience claims a
unfolding claim_audiences HasAudience
claim_audiences_iff claims a = audiences_iff (lookup "aud" claims) a

members_iff :
    (child parent : List String)
    → Narrows child parent ↔ ((a : String) → Any (λ p. p ≡ a) child → Any (λ p. p ≡ a) parent)
members_iff [] parent = ((λ _ a h. absurd h), λ _. tt)
members_iff (c ∷ child) parent =
    let (to, back) = members_iff child parent in
    (
      (λ h a m. elim m [
        | inl here ↦ subst (λ x. Any (λ p. p ≡ x) parent) here h.0
        | inr rest ↦ to h.1 a rest
      ]),
      λ h. (h c (inl refl), back (λ a m. h a (inr m))),
    )

-- The claims have no audience that the parent does not have.
pub record Narrowed (claims parent : Fields) : Type 0 where
  pub shared : (a : String) → HasAudience claims a → HasAudience parent a

audience_narrows_tests :
    (claims parent : Fields)
    → (audience_narrows claims parent ≡ true)
      ↔ Narrows (claim_audiences claims) (claim_audiences parent)
unfolding audience_narrows
audience_narrows_tests claims parent =
    ground (arith, audience_is_subset_iff (claim_audiences claims) (claim_audiences parent))

pub audience_narrows_iff :
    (claims parent : Fields) → (audience_narrows claims parent ≡ true) ↔ Narrowed claims parent
audience_narrows_iff claims parent =
    let tested = audience_narrows_tests claims parent in
    let meant = members_iff (claim_audiences claims) (claim_audiences parent) in
    (
      (λ h. record {
        shared = λ a has.
            (claim_audiences_iff parent a).0
              (meant.0 (tested.0 h) a ((claim_audiences_iff claims a).1 has));
      }),
      λ n. tested.1 (
          meant.1 (λ a has.
            (claim_audiences_iff parent a).1 (n.shared a ((claim_audiences_iff claims a).0 has)))),
    )
