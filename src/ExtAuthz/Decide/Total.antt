-- ===== src/ExtAuthz/Decide/Total.antt =====
-- `decide` of pkg/extauthz/server.go, and the pointers that it follows.
use mathlib.Core.Path.{subst}
use nullfield.Prelude.{
  ℕ, ◌≡◌, refl, sym, ◌≢◌, inl, inr, String, Bool, true, false, not, List, [], ◌∷◌, Option, none,
  some, ◌==◌, eq_iff, arith, if◌then◌else◌, Option-cases, Bool-cases,
}
use nullfield.Api.{Rule}
use nullfield.Identity.{Identity, Run}
use nullfield.Identity.Attest.{Attestation}
use nullfield.Identity.RunToken.{Jwks, Verified, verified, failed, missing, unbound, invalid}
use nullfield.Identity.RunToken.Binding.{verify_run_token-Bound}
use nullfield.Operations.{Library, OperationMap, resolve}
use nullfield.Policy.Rules.{new_rule_engine}
use nullfield.Policy.Rules.Verdicts.{evaluate-Verdict}
use nullfield.Policy.Engine.{Decision}
use nullfield.Circuit.{Breaker, is_allowed, first_trip}
use nullfield.Gates.{
  Gates, Call, Refusal, Clock, gate_registry, gate_circuit, lets_through, admit, charge,
}
use nullfield.ExtAuthz.Translate.{Translated}
use nullfield.ExtAuthz.Target.{match_service, named_service, host_of, services, verify_target}
use nullfield.ExtAuthz.Verify.{
  name_action, verify_operation, accept_run, verify_run, principal_of, then_verify,
}
use nullfield.ExtAuthz.Decide.{
  Server, Decided, trip_event, tripped, trip, not_admitted, charged, judged, verify, session_of,
  call_of, admitted, decide_verified, decide,
}

-- A run comes with the identity that its token carried, and with the workload that presented it.
pub record Whole (t : Translated) : Type 0 where
  pub identified :
      (run : Run) → t.policy.run ≡ some run → (id : Identity) × (t.policy.identity ≡ some id)
  pub attested :
      (run : Run) → t.policy.run ≡ some run → (att : Attestation) × (t.attestation ≡ some att)

match_service-Whole :
    (lib : Library) (t : Translated) (names : List String)
    → Whole t
    → Whole (match_service lib t names).0
unfolding match_service
match_service-Whole lib t [] w = w
match_service-Whole lib t (n ∷ names) w =
    elim (Option-cases
      (named_service lib (host_of lib t.policy.target) t.destination (n ∷ names))) [
        | inl e ↦ rw (e, match_service) w
        | inr (service, e) ↦
            rw (e, match_service) (record { identified = w.identified; attested = w.attested })
      ]

verify_target-Whole :
    (lookup : Option (String → List String)) (lib : Library) (t : Translated)
    → Whole t
    → Whole (verify_target lookup lib t).0
unfolding verify_target
verify_target-Whole none lib t w = w
verify_target-Whole (some lookup) lib t w = elim (Bool-cases (t.destination == "")) [
  | inl e ↦ rw e w
  | inr e ↦ rw e (match_service-Whole lib t (services lib (lookup t.destination)) w)
]

verify_operation-Whole :
    (m : Option OperationMap) (lib : Library) (t : Translated)
    → Whole t
    → Whole (verify_operation m lib t).0
unfolding verify_operation name_action
verify_operation-Whole none lib t w = w
verify_operation-Whole (some m) lib t w =
    elim (Option-cases (resolve lib m t.policy.target t.policy.operation)) [
      | inl e ↦ rw e (record { identified = w.identified; attested = w.attested })
      | inr (answer, e) ↦ rw e (record { identified = w.identified; attested = w.attested })
    ]

pub attested_of :
    (o : Option Attestation) → principal_of o ≢ "" → (att : Attestation) × (o ≡ some att)
attested_of none n = absurd (n refl)
attested_of (some att) n = (att, refl)

accept_run-Whole :
    (answer : Verified) (is_optional : Bool) (t : Translated)
    → ((id : Identity) (run : Run) → answer ≡ verified id run → principal_of t.attestation ≢ "")
    → Whole t
    → Whole (accept_run answer is_optional t).0
unfolding accept_run
accept_run-Whole (verified id run) is_optional t named w = record {
  identified = λ r e. (id, refl);
  attested = λ r e. attested_of t.attestation (named id run refl);
}
accept_run-Whole (failed missing) is_optional t named w = w
accept_run-Whole (failed (unbound e)) is_optional t named w = w
accept_run-Whole (failed (invalid e)) is_optional t named w = w

verify_run-Whole :
    (j : Option Jwks) (is_optional : Bool) (lib : Library) (t : Translated)
    → Whole t
    → Whole (verify_run j is_optional lib t).0
unfolding verify_run
verify_run-Whole none is_optional lib t w = w
verify_run-Whole (some j) is_optional lib t w =
    accept_run-Whole _ is_optional t
      (λ id run e.
        (verify_run_token-Bound j _ (principal_of t.attestation) id run e).workload_named)
      w

then_verify-Whole :
    (r : Translated × Option Refusal) (next : Translated → Translated × Option Refusal)
    → ((t : Translated) → Whole t → Whole (next t).0)
    → Whole r.0
    → Whole (then_verify r next).0
then_verify-Whole (t, some r) next keeps w = w
then_verify-Whole (t, none) next keeps w = keeps t w

admit_circuit :
    (g : Gates) (c : Call) (now : ℕ) (r : Refusal)
    → admit g c now ≡ some r
    → r.gate ≡ gate_circuit
    → lets_through g.breaker c.session now ≡ false
unfolding admit
admit_circuit g c now r e circuit =
    ground (arith, eq_iff c.tool "", eq_iff gate_registry gate_circuit)

tripped_session :
    (o : Option Breaker) (session : String) (now : ℕ)
    → lets_through o session now ≡ false
    → (b : Breaker) × (o ≡ some b) × (session ≢ "")
unfolding is_allowed
tripped_session none session now e = absurd (ground arith)
tripped_session (some b) session now e = (b, refl, λ same. ground (arith, eq_iff session ""))

session_of_named :
    {Ast Program : Type 0} (s : Server Ast Program) (j : Option Jwks) (run : Option Run)
    → session_of s j run ≢ ""
    → (r : Run) × (run ≡ some r)
session_of_named s none run n = absurd (n refl)
session_of_named s (some j) none n = absurd (n refl)
session_of_named s (some j) (some r) n = (r, refl)

trip_event_total :
    (t : Translated) (c : Call) (r : Refusal) (run : Run)
    → t.policy.run ≡ some run
    → Whole t
    → (e : _) × (trip_event t c r ≡ some e)
unfolding trip_event
trip_event_total t c r run e w =
    let (id, has_id) = w.identified run e in
    let (att, has_att) = w.attested run e in rw (has_id, has_att) (_, refl)

-- A decision is reached, about this call.
abbrev pub Settles : Translated → Option Decided → Type 0
Settles t o = (d : Decided) × (o ≡ some d) × (d.translated ≡ t)

if-Settles :
    (t : Translated) (b : Bool) (x y : Option Decided)
    → Settles t x
    → Settles t y
    → Settles t (if b then x else y)
if-Settles t true x y h k = h
if-Settles t false x y h k = k

tripped-Settles :
    (has_audit : Bool) (g : Gates) (t : Translated) (c : Call) (r : Refusal) (b : Breaker × Bool)
    (run : Run)
    → t.policy.run ≡ some run
    → Whole t
    → Settles t (tripped has_audit g t c r b)
unfolding tripped
tripped-Settles has_audit g t c r (b, false) run e w = (_, refl, refl)
tripped-Settles has_audit g t c r (b, true) run e w =
    let (event, is_event) = trip_event_total t c r run e w in rw (is_event, tripped) (_, refl, refl)

trip-Settles :
    (o : Option Breaker) (has_audit : Bool) (g : Gates) (t : Translated) (c : Call) (r : Refusal)
    (b : Breaker) (run : Run)
    → o ≡ some b
    → t.policy.run ≡ some run
    → Whole t
    → Settles t (trip o has_audit g t c r)
unfolding trip
trip-Settles o has_audit g t c r b run is_b e w =
    rw is_b (tripped-Settles has_audit g t c r (first_trip b c.session) run e w)

module _ {Ast Program : Type 0} (s : Server Ast Program) where
  not_admitted-Settles :
      (g : Gates) (t : Translated) (now : ℕ) (r : Refusal)
      → Whole t
      → admit g (call_of s t) now ≡ some r
      → Settles t (not_admitted s.has_audit g t (call_of s t) r)
  unfolding not_admitted
  not_admitted-Settles g t now r w e = elim (Bool-cases (r.gate == gate_circuit)) [
    | inr other ↦ rw other (_, refl, refl)
    | inl circuit ↦
        let (b, is_b, named) =
          tripped_session g.breaker (call_of s t).session now
            (admit_circuit g (call_of s t) now r e ((eq_iff r.gate gate_circuit).0 circuit)) in
        let (run, is_run) = session_of_named s s.run_tokens t.policy.run named in
        rw circuit (trip-Settles g.breaker s.has_audit g t (call_of s t) r b run is_b is_run w)
  ]

  judged-Settles :
      (g : Gates) (t : Translated) (clock : Clock) (d : Decision)
      → Settles t (judged s.has_audit g t (call_of s t) clock (some d))
  unfolding judged charged
  judged-Settles g t clock d =
      if-Settles t (not d.allowed) _ _ (_, refl, refl)
        (_, refl, charged_translated (charge g (call_of s t) d clock))
    where
      charged_translated :
          (r : Gates × (Option Refusal × Option Refusal))
          → (charged s.has_audit t d r).translated ≡ t
      charged_translated (h, (some r, warning)) = refl
      charged_translated (h, (none, none)) = refl
      charged_translated (h, (none, some warning)) = refl

  verify-Whole : (t : Translated) → Whole t → Whole (verify s t).0
  unfolding verify
  verify-Whole t w =
      then_verify-Whole _ _ (verify_run-Whole s.run_tokens s.run_token_optional s.library) (
        then_verify-Whole _ _ (verify_operation-Whole s.operations s.library)
          (verify_target-Whole s.lookup_addr s.library t w))

  admitted-Settles :
      (rules : List Rule)
      → s.engine ≡ new_rule_engine s.cel rules
      → (g : Gates) (t : Translated) (now : ℕ) (clock : Clock) → Whole t
      → Settles t (admitted s g t now clock (admit g (call_of s t) now))
  unfolding admitted
  admitted-Settles rules built g t now clock w = elim (Option-cases (admit g (call_of s t) now)) [
    | inr (r, e) ↦ rw e (not_admitted-Settles g t now r w e)
    | inl e ↦
        let (d, decided, _) = evaluate-Verdict s.cel t.policy rules in
        rw (e, built, decided) (judged-Settles g t clock d)
  ]

  decide_verified-Settles :
      (rules : List Rule)
      → s.engine ≡ new_rule_engine s.cel rules
      → (g : Gates) (now : ℕ) (clock : Clock) (v : Translated × Option Refusal) → Whole v.0
      → Settles v.0 (decide_verified s g now clock v)
  unfolding decide_verified
  decide_verified-Settles rules built g now clock (t, some r) w = (_, refl, refl)
  decide_verified-Settles rules built g now clock (t, none) w =
      admitted-Settles rules built g t now clock w

  -- With an engine that `NewRuleEngine` built, a decision is reached about every call whose run, if
  -- it has one, comes with an identity and an attested workload; and the call that is decided has
  -- them again.
  pub decide-Settles :
      (rules : List Rule)
      → s.engine ≡ new_rule_engine s.cel rules
      → (g : Gates) (t : Translated) (now : ℕ) (clock : Clock) → Whole t
      → (d : Decided) × (decide s g t now clock ≡ some d) × Whole d.translated
  unfolding decide
  decide-Settles rules built g t now clock w =
      let (d, e, same) =
        decide_verified-Settles rules built g now clock (verify s t) (verify-Whole t w) in
      (d, e, subst Whole (sym same) (verify-Whole t w))
