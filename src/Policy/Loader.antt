-- ===== src/Policy/Loader.antt =====
-- pkg/policy/loader.go: which policy documents are accepted. The file is read outside the model; the
-- YAML decoder, `time.ParseDuration` and %q are parameters, and the durations of a run token, which the
-- source reads in the order of a map, are read in the order in which they are written.
pub mod Accepted
use nullfield.Prelude.{
  ℕ, zero, suc, String, Bool, true, false, not, ◌&&◌, ◌||◌, List, [], ◌∷◌, Option, none, some, ◌==◌,
  if◌then◌else◌, ◌+++◌, decimal, is_some, is_empty, ℤ, Result, ok, err, guard, ◌>>◌, ◌>>=◌,
}
use nullfield.Api.{Rule, BudgetConfig, HoldConfig}
use nullfield.Api.Spec.{
  NullfieldPolicySpec, RunTokenConfig, IdentityConfig, IdentityProvider, ValidationConfig,
  TokenIntegrity, AnomalyConfig,
}
use nullfield.Policy.Cel.{Cel, compile_cel}

-- The decoder, with the text of its error
pub record Documents : Type 0 where
  pub decode : String → Result NullfieldPolicySpec
  pub parse_duration : String → Result ℤ
  pub quote : String → String

abbrev pub done : Result (Unit {0})
done = ok tt

abbrev pub has_notify : Option HoldConfig → Bool
has_notify none = false
has_notify (some cfg) = is_some cfg.notify

-- The fields of a rule that nothing enforces, and whether the rule sets them
abbrev pub fields_of : Rule → List (String × Bool)
fields_of r =
    ("direction", not (r.direction == ""))
    ∷ ("destination", not (r.destination == ""))
    ∷ ("injectCredential", is_some r.inject_cred)
    ∷ ("paramRules", not (is_empty r.param_rules))
    ∷ ("hold.notify", has_notify r.hold)
    ∷ []

-- The loop over the fields of a rule
unfoldable pub check_fields : ℕ → List (String × Bool) → Result (Unit {0})
check_fields i [] = done
check_fields i ((name, is_set) ∷ fields) =
    let rest = check_fields i fields in
    if is_set
    then err ("rule " +++ decimal i +++ " sets " +++ name +++ ", which is not enforced; remove it")
    else rest

module _ {Ast Program : Type 0} (cel : Cel Ast Program) (docs : Documents) where
  unfoldable pub check_expression : ℕ → Rule → Result (Unit {0})
  check_expression i r =
      if r.cel_expression == "" then done else elim (compile_cel cel r.cel_expression) [
        | err e ↦ err ("rule " +++ decimal i +++ ": celExpression: " +++ e)
        | ok program ↦ done
      ]

  unfoldable pub check_budget : ℕ → Option BudgetConfig → Result (Unit {0})
  check_budget i none = done
  check_budget i (some b) =
      if not (b.on_exhausted == "") && not (b.on_exhausted == "DENY")
      then err (
          "rule "
          +++ decimal i
          +++ ": budget.onExhausted "
          +++ docs.quote b.on_exhausted
          +++ " is not supported; an exhausted budget always denies")
      else done

  -- The loop of `validate` over the rules
  unfoldable pub check_rules : ℕ → List Rule → Result (Unit {0})
  unfolding check_fields check_expression check_budget
  check_rules i [] = done
  check_rules i (r ∷ rules) =
      check_fields i (fields_of r)
      >> (check_expression i r >> (check_budget i r.budget >> check_rules (suc i) rules))

  abbrev pub check_on_trip : String → Result (Unit {0})
  check_on_trip on_trip =
      if on_trip == "" || on_trip == "DENY" || on_trip == "REJECT"
      then done
      else err (
          "circuitBreaker.onTrip "
          +++ docs.quote on_trip
          +++ " is not performed; a tripped breaker refuses calls (DENY). To end the workload, have its controller act on the circuit.tripped signal (docs/signals.md)")

  unfoldable pub check_integrity : Option TokenIntegrity → Result (Unit {0})
  check_integrity none = done
  check_integrity (some integrity) =
      if integrity.chain_validation
      then err
          "integrity.chainValidation is not enforced; use per-rule identity and delegation guards"
      else done

  unfoldable pub check_anomaly : Option AnomalyConfig → Result (Unit {0})
  check_anomaly none = done
  check_anomaly (some anomaly) =
      if is_empty anomaly.sequences
      then done
      else err "anomaly.sequences is not enforced; remove it"

  -- A duration that is given is to parse.
  unfoldable pub check_duration : String → String → Result (Unit {0})
  check_duration label d =
      if d == ""
      then done
      else elim (docs.parse_duration d) [ err e ↦ err (label +++ e) | ok parsed ↦ done ]

  unfoldable pub check_run_token : Option RunTokenConfig → Result (Unit {0})
  unfolding check_duration
  check_run_token none = done
  check_run_token (some rt) =
      if rt.jwks_uri == "" || rt.audience == ""
      then err
          "runToken needs jwksUri and audience (the trust domain); without either nothing is verified"
      else check_duration "runToken.maxLifetime: " rt.max_lifetime
        >> check_duration "runToken.clockSkew: " rt.clock_skew

  abbrev pub wants_audience : Option ValidationConfig → Bool
  wants_audience none = false
  wants_audience (some v) = v.require_audience

  unfoldable pub check_providers :
      Option ValidationConfig → List IdentityProvider → Result (Unit {0})
  unfolding check_duration
  check_providers validation [] = done
  check_providers validation (p ∷ providers) =
      check_duration ("provider " +++ docs.quote p.name +++ ": clockSkew: ") p.clock_skew
      >> ((if wants_audience validation && is_empty p.audiences
            then err (
                "provider "
                +++ docs.quote p.name
                +++ ": requireAudience is set but the provider lists no audiences, so any audience would pass")
            else done)
          >> check_providers validation providers)

  unfoldable pub check_validation : Option ValidationConfig → Result (Unit {0})
  unfolding check_duration
  check_validation none = done
  check_validation (some v) = check_duration "identity.validation.maxLifetime: " v.max_lifetime

  unfoldable pub check_identity : Option IdentityConfig → Result (Unit {0})
  unfolding check_providers check_validation
  check_identity none = done
  check_identity (some id) =
      check_providers id.validation id.providers >> check_validation id.validation

  -- `validate`
  unfoldable pub validate : NullfieldPolicySpec → Result (Unit {0})
  unfolding check_rules check_integrity check_anomaly check_run_token check_identity
  validate s =
      check_rules 0 s.rules
      >> (check_on_trip s.circuit_breaker.on_trip
          >> (check_integrity s.integrity
              >> (check_anomaly s.anomaly
                  >> (check_run_token s.run_token >> check_identity s.identity))))

  unfoldable pub parse_decoded : NullfieldPolicySpec → Result NullfieldPolicySpec
  unfolding validate
  parse_decoded s =
      if is_empty s.rules
      then err "policy file contains no rules"
      else elim (validate s) [ err e ↦ err ("policy: " +++ e) | ok valid ↦ ok s ]

  -- `ParseSpec`
  unfoldable pub parse_spec : String → Result NullfieldPolicySpec
  unfolding parse_decoded
  parse_spec document = elim (docs.decode document) [
    | err e ↦ err ("parse policy file: " +++ e)
    | ok s ↦ parse_decoded s
  ]

  -- `LoadProxySpecFromFile` from the content of the file on
  unfoldable pub load_proxy_spec : String → Result NullfieldPolicySpec
  unfolding parse_spec
  load_proxy_spec document = elim (parse_spec document) [
    | err e ↦ err e
    | ok s ↦
        if is_some s.run_token
        then err
            "policy: runToken is enforced by nullfield-extauthz only: the proxy has no attested workload to bind it to"
        else ok s
  ]
