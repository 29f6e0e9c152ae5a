-- ===== src/Inspection/Agreement.antt =====
-- What the three operations of pkg/inspection/inspector.go find sensitive.
use nullfield.Prelude.{
  ℕ, suc, ◌+◌, ◌≡◌, refl, ◌↔◌, inl, inr, String, Bool, true, false, ◌||◌, List, [], ◌∷◌, ◌++◌, map,
  none, some, arith, any, length, if◌then◌else◌, Bool-cases,
}
use nullfield.Regexp.{Regexp}
use nullfield.Inspection.{
  Finding, InspectionRule, Inspector, finding_of, inspect, inspect_rules, redact, redact_rules,
  has_sensitive_content,
}

-- What the documentation of regexp says of `FindAllString` and `MatchString`: a text matches if and only
-- if there is a match to be found, with a limit that is positive and without one.
pub record FindsMatches {Re : Type 0} (re : Regexp Re) : Type 0 where
  pub limited :
      (r : Re) (s : String) (n : ℕ)
      → (re.find_all r s (some (suc n)) ≡ []) ↔ (re.is_match r s ≡ false)
  pub unlimited :
      (r : Re) (s : String) → (length (re.find_all r s none) ≡ 0) ↔ (re.is_match r s ≡ false)

counted :
    (b c : Bool) (n k : ℕ)
    → (n ≡ 0) ↔ (b ≡ false)
    → (b ≡ false → (k ≡ 0) ↔ (c ≡ false))
    → ((if b then n else 0) + k ≡ 0) ↔ ((b || c) ≡ false)
counted true c n k here rest = ((λ e. here.0 (omega arith)), λ e. absurd (ground arith))
counted false c n k here rest =
    ((λ e. (rest refl).0 (omega arith)), λ e. omega (arith, (rest refl).1 e))

module _ {Re : Type 0} (re : Regexp Re) (finds : FindsMatches re) where
  none_of :
      (r : InspectionRule Re) (ms : List String) (fs : List Finding)
      → (map (finding_of re r) ms ++ fs ≡ []) ↔ ((ms ≡ []) × (fs ≡ []))
  none_of r [] fs = ((λ e. (refl, e)), λ e. e.1)
  none_of r (m ∷ ms) fs = ((λ e. absurd (ground arith)), λ e. absurd (ground (arith, e.0)))

  inspect_rules_iff :
      (rules : List (InspectionRule Re)) (content : String)
      → (inspect_rules re rules content ≡ [])
        ↔ (any (λ r. re.is_match r.pattern content) rules ≡ false)
  unfolding inspect_rules
  inspect_rules_iff [] content = ((λ _. refl), λ _. refl)
  inspect_rules_iff (r ∷ rules) content =
      let split =
        none_of r (re.find_all r.pattern content (some 3)) (inspect_rules re rules content) in
      let here = finds.limited r.pattern content 2 in
      let ih = inspect_rules_iff rules content in
      (
        (λ e. ground (arith, here.0 (split.0 e).0, ih.0 (split.0 e).1)),
        λ e. split.1 (here.1 (ground arith), ih.1 (ground arith)),
      )

  redact_rules_iff :
      (rules : List (InspectionRule Re)) (content replacement : String)
      → ((redact_rules re rules content replacement).1 ≡ 0)
        ↔ (any (λ r. re.is_match r.pattern content) rules ≡ false)
  unfolding redact_rules
  redact_rules_iff [] content replacement = ((λ _. refl), λ _. refl)
  redact_rules_iff (r ∷ rules) content replacement =
      counted (re.is_match r.pattern content) (any (λ x. re.is_match x.pattern content) rules)
        (length (re.find_all r.pattern content none)) _ (finds.unlimited r.pattern content)
        (λ miss. rw miss (redact_rules_iff rules content replacement))

  redact_rules-same :
      (rules : List (InspectionRule Re)) (content replacement : String)
      → any (λ r. re.is_match r.pattern content) rules ≡ false
      → (redact_rules re rules content replacement).0 ≡ content
  unfolding redact_rules
  redact_rules-same [] content replacement e = refl
  redact_rules-same (r ∷ rules) content replacement e =
      elim (Bool-cases (re.is_match r.pattern content)) [
        | inl hit ↦ absurd (ground arith)
        | inr miss ↦ rw miss (redact_rules-same rules content replacement (ground arith))
      ]

  -- Where regexp finds a match exactly in the texts that match, the three agree on every text: none is
  -- found in it if and only if it has no sensitive content, if and only if nothing of it is redacted;
  -- and such a text is left as it is.
  pub inspect_lem :
      (i : Inspector Re) (content replacement : String)
      → ((inspect re i content ≡ []) ↔ (has_sensitive_content re i content ≡ false))
        × (((redact re i content replacement).1 ≡ 0) ↔ (has_sensitive_content re i content ≡ false))
        × (has_sensitive_content re i content ≡ false
            → (redact re i content replacement).0 ≡ content)
  unfolding has_sensitive_content
  inspect_lem i content replacement = (
    inspect_rules_iff i.rules content,
    redact_rules_iff i.rules content _,
    redact_rules-same i.rules content _,
  )
