-- ===== src/Policy/Loader/Accepted.antt =====
-- What the documents that pkg/policy/loader.go accepts do not set.
use mathlib.Core.Option.{some-injective}
use mathlib.Core.Path.{subst}
use nullfield.Prelude.{
  ℕ, suc, ◌≡◌, refl, ◌≢◌, ◌⊎◌, inl, inr, String, Bool, true, false, not, List, [], ◌∷◌, Option,
  none, some, ◌==◌, eq_iff, arith, if◌then◌else◌, All, Bool-cases, Result-cases, is_some, is_empty,
  Result, ok, err, ◌>>◌,
}
use nullfield.Api.{Rule, BudgetConfig}
use nullfield.Api.Spec.{NullfieldPolicySpec, TokenIntegrity, AnomalyConfig, AnomalySequence}
use nullfield.Policy.Cel.{Cel, compile_cel}
use nullfield.Policy.Loader.{
  Documents, done, fields_of, check_fields, check_expression, check_budget, check_rules,
  check_on_trip, check_integrity, check_anomaly, check_run_token, check_identity, validate,
  parse_decoded, parse_spec, has_notify,
}

ok-ne-err : {A : Type 0} {a : A} {e : String} → ◌≡◌ {A = Result A} (err e) (ok a) → ⊥
ok-ne-err e = ground arith

spec-ne-err :
    {a : NullfieldPolicySpec} {e : String} → ◌≡◌ {A = Result NullfieldPolicySpec} (err e) (ok a) → ⊥
spec-ne-err e = ground arith

ok-injective : {a b : NullfieldPolicySpec} → ok a ≡ ok b → a ≡ b
ok-injective e = cc

then-ok :
    (first rest : Result (Unit {0})) → first >> rest ≡ ok tt → (first ≡ ok tt) × (rest ≡ ok tt)
then-ok (ok tt) rest e = (refl, e)
then-ok (err m) rest e = absurd (ok-ne-err e)

-- No field among them is set.
fields_unset :
    (i : ℕ) (fields : List (String × Bool))
    → check_fields i fields ≡ ok tt
    → All (λ f. f.1 ≡ false) fields
unfolding check_fields
fields_unset i [] e = tt
fields_unset i ((name, is_set) ∷ fields) e = elim (Bool-cases is_set) [
  | inl set ↦ absurd (ok-ne-err (rw (set, check_fields) at e))
  | inr unset ↦ (unset, fields_unset i fields (rw (unset, check_fields) at e))
]

module _ {Ast Program : Type 0} (cel : Cel Ast Program) (docs : Documents) where
  -- A rule sets nothing that is not enforced, its expression compiles if it has one, and its budget
  -- denies.
  pub record Enforced (r : Rule) : Type 0 where
    pub undirected : (r.direction ≡ "") × (r.destination ≡ "")
    pub uninjected : is_some r.inject_cred ≡ false
    pub unruled : is_empty r.param_rules ≡ true
    pub unnotified : has_notify r.hold ≡ false
    pub expression :
        (r.cel_expression ≡ "") ⊎ ((p : Program) × (compile_cel cel r.cel_expression ≡ ok p))
    pub budget :
        (b : BudgetConfig) → r.budget ≡ some b → (b.on_exhausted ≡ "") ⊎ (b.on_exhausted ≡ "DENY")

  expression_compiles :
      (i : ℕ) (r : Rule)
      → check_expression cel docs i r ≡ ok tt
      → (r.cel_expression ≡ "") ⊎ ((p : Program) × (compile_cel cel r.cel_expression ≡ ok p))
  unfolding check_expression
  expression_compiles i r e = elim (Bool-cases (r.cel_expression == "")) [
    | inl none' ↦ inl ((eq_iff r.cel_expression "").0 none')
    | inr some' ↦ elim (Result-cases (compile_cel cel r.cel_expression)) [
      | inl (p, compiled) ↦ inr (p, compiled)
      | inr (m, failed) ↦ absurd (ok-ne-err (rw (some', failed, check_expression) at e))
    ]
  ]

  budget_denies :
      (i : ℕ) (o : Option BudgetConfig) (b : BudgetConfig)
      → check_budget cel docs i o ≡ ok tt
      → o ≡ some b
      → (b.on_exhausted ≡ "") ⊎ (b.on_exhausted ≡ "DENY")
  unfolding check_budget
  budget_denies i none b e is = absurd (ground arith)
  budget_denies i (some c) b e is =
      subst (λ x. (x.on_exhausted ≡ "") ⊎ (x.on_exhausted ≡ "DENY")) (some-injective c b is)
        (elim (Bool-cases (c.on_exhausted == "")) [
          | inl empty' ↦ inl ((eq_iff c.on_exhausted "").0 empty')
          | inr other ↦ elim (Bool-cases (c.on_exhausted == "DENY")) [
            | inl denies ↦ inr ((eq_iff c.on_exhausted "DENY").0 denies)
            | inr neither ↦ absurd (ok-ne-err (rw (other, neither, check_budget) at e))
          ]
        ])

  unset-eq : (s : String) → not (s == "") ≡ false → s ≡ ""
  unset-eq s e = (eq_iff s "").0 (ground arith)

  rules-Enforced :
      (i : ℕ) (rules : List Rule) → check_rules cel docs i rules ≡ ok tt → All Enforced rules
  unfolding check_rules
  rules-Enforced i [] e = tt
  rules-Enforced i (r ∷ rules) e =
      let (fields, after) =
        then-ok _
          (check_expression cel docs i r
            >> (check_budget cel docs i r.budget >> check_rules cel docs (suc i) rules))
          e in
      let (compiles, later) =
        then-ok _ (check_budget cel docs i r.budget >> check_rules cel docs (suc i) rules) after in
      let (denies, rest) = then-ok _ (check_rules cel docs (suc i) rules) later in
      let (direction, (destination, (inject, (params, (notify, _))))) =
        fields_unset i (fields_of r) fields in
      (
        record {
          undirected = (unset-eq r.direction direction, unset-eq r.destination destination);
          uninjected = inject;
          unruled = ground (arith, params);
          unnotified = notify;
          expression = expression_compiles i r compiles;
          budget = λ b is. budget_denies i r.budget b denies is;
        },
        rules-Enforced (suc i) rules rest,
      )

  -- A policy has rules, each of which is enforced as it is written; a trip of its breaker refuses calls;
  -- and it asks for no validation of a chain and for no sequences.
  pub record Sound (s : NullfieldPolicySpec) : Type 0 where
    pub ruled : s.rules ≢ []
    pub rules : All Enforced s.rules
    pub trips :
        (s.circuit_breaker.on_trip ≡ "")
        ⊎ (s.circuit_breaker.on_trip ≡ "DENY")
        ⊎ (s.circuit_breaker.on_trip ≡ "REJECT")
    pub unchained : (c : TokenIntegrity) → s.integrity ≡ some c → c.chain_validation ≡ false
    pub unsequenced : (c : AnomalyConfig) → s.anomaly ≡ some c → c.sequences ≡ []

  trip_refuses :
      (t : String) → check_on_trip cel docs t ≡ ok tt → (t ≡ "") ⊎ (t ≡ "DENY") ⊎ (t ≡ "REJECT")
  trip_refuses t e = ground (arith, eq_iff t "", eq_iff t "DENY", eq_iff t "REJECT")

  chain_unset :
      (o : Option TokenIntegrity) (c : TokenIntegrity)
      → check_integrity cel docs o ≡ ok tt
      → o ≡ some c
      → c.chain_validation ≡ false
  unfolding check_integrity
  chain_unset none c e is = absurd (ground arith)
  chain_unset (some d) c e is =
      subst (λ x. x.chain_validation ≡ false) (some-injective d c is) (go d.chain_validation e)
    where
      go :
          (b : Bool)
          → (if b
              then err
                  "integrity.chainValidation is not enforced; use per-rule identity and delegation guards"
              else done)
            ≡ ok tt
          → b ≡ false
      go true e = absurd (ok-ne-err e)
      go false e = refl

  sequences_unset :
      (o : Option AnomalyConfig) (c : AnomalyConfig)
      → check_anomaly cel docs o ≡ ok tt
      → o ≡ some c
      → c.sequences ≡ []
  unfolding check_anomaly
  sequences_unset none c e is = absurd (ground arith)
  sequences_unset (some d) c e is =
      subst (λ x. x.sequences ≡ []) (some-injective d c is) (go d.sequences e)
    where
      go :
          (l : List AnomalySequence)
          → (if is_empty l then done else err "anomaly.sequences is not enforced; remove it")
            ≡ ok tt
          → l ≡ []
      go [] e = refl
      go (x ∷ l) e = absurd (ok-ne-err e)

  validate-Sound : (s : NullfieldPolicySpec) → s.rules ≢ [] → validate cel docs s ≡ ok tt → Sound s
  unfolding validate
  validate-Sound s ruled e =
      let last = check_run_token cel docs s.run_token >> check_identity cel docs s.identity in
      let (rules, e1) = then-ok (check_rules cel docs 0 s.rules) _ e in
      let (trips, e2) =
        then-ok (check_on_trip cel docs s.circuit_breaker.on_trip)
          (check_integrity cel docs s.integrity >> (check_anomaly cel docs s.anomaly >> last)) e1 in
      let (chain, e3) =
        then-ok (check_integrity cel docs s.integrity) (check_anomaly cel docs s.anomaly >> last)
          e2 in
      let (sequences, _) = then-ok (check_anomaly cel docs s.anomaly) last e3 in
      record {
        ruled = ruled;
        rules = rules-Enforced 0 s.rules rules;
        trips = trip_refuses s.circuit_breaker.on_trip trips;
        unchained = λ c is. chain_unset s.integrity c chain is;
        unsequenced = λ c is. sequences_unset s.anomaly c sequences is;
      }

  ruled_of : (l : List Rule) → is_empty l ≡ false → l ≢ []
  ruled_of [] e = λ _. ground (arith, e)
  ruled_of (r ∷ l) e = λ same. ground arith

  parse_decoded-Sound : (s s' : NullfieldPolicySpec) → parse_decoded cel docs s ≡ ok s' → Sound s'
  unfolding parse_decoded
  parse_decoded-Sound s s' e = elim (Bool-cases (is_empty s.rules)) [
    | inl none' ↦ absurd (spec-ne-err (rw (none', parse_decoded) at e))
    | inr ruled ↦ elim (Result-cases (validate cel docs s)) [
      | inr (m, invalid) ↦ absurd (spec-ne-err (rw (ruled, parse_decoded, invalid) at e))
      | inl (u, valid) ↦
          subst Sound (ok-injective (rw (ruled, parse_decoded, valid) at e))
            (validate-Sound s (ruled_of s.rules ruled) valid)
    ]
  ]

  -- A document that is accepted is a policy that has rules, and sets nothing that is not enforced: no
  -- rule sets a direction, a destination, a credential to inject, parameter rules or a notification;
  -- every expression compiles; every budget denies when it is exhausted; a trip of the breaker refuses
  -- calls; and neither the validation of chains nor sequences are asked for.
  pub parse_spec-Sound :
      (document : String) (s : NullfieldPolicySpec) → parse_spec cel docs document ≡ ok s → Sound s
  unfolding parse_spec
  parse_spec-Sound document s e = elim (Result-cases (docs.decode document)) [
    | inl (decoded, is) ↦ parse_decoded-Sound decoded s (rw (is, parse_spec) at e)
    | inr (m, failed) ↦ absurd (spec-ne-err (rw (failed, parse_spec) at e))
  ]
