-- ===== src/ExtAuthz/Decide/Admissions.antt =====
-- What a call that `decide` of pkg/extauthz/server.go allows has passed.
use mathlib.Core.Option.{some-injective}
use mathlib.Core.Path.{subst}
use nullfield.Prelude.{
  ℕ, ◌≡◌, refl, sym, ◌∙◌, ap, ◌≢◌, inl, inr, String, Bool, true, false, not, [], Option, none, some,
  ◌==◌, arith, if◌then◌else◌, Option-cases, Bool-cases,
}
use nullfield.Identity.{Identity, Run}
use nullfield.Identity.RunToken.{
  Jwks, Verified, verified, failed, missing, unbound, invalid, verify_run_token,
}
use nullfield.Identity.RunToken.Binding.{Bound, verify_run_token-Bound}
use nullfield.Operations.{Library}
use nullfield.Policy.Rules.{evaluate}
use nullfield.Policy.Engine.{Decision}
use nullfield.Circuit.{Breaker, first_trip}
use nullfield.Gates.{Gates, Call, Refusal, Clock, gate_circuit, admit, charge}
use nullfield.Gates.Outcomes.{Admissible, admit_iff}
use nullfield.ExtAuthz.Translate.{Translated}
use nullfield.ExtAuthz.Target.{verify_target}
use nullfield.ExtAuthz.Verify.{verify_operation, accept_run, verify_run, principal_of, then_verify}
use nullfield.ExtAuthz.Decide.{
  Server, Decided, refuse, trip_event, tripped, trip, not_admitted, charged, judged, verify,
  call_of, admitted, decide_verified, decide,
}

-- The call carries the run of a token that was issued to the workload that presents it.
pub record Carries (j : Jwks) (t : Translated) : Type 0 where
  pub token : String
  pub id : Identity
  pub run : Run
  pub identified : t.policy.identity ≡ some id
  pub running : t.policy.run ≡ some run
  pub bound : Bound j token (principal_of t.attestation) id run

accept_run-Carries :
    (j : Jwks) (token : String) (answer : Verified) (t u : Translated)
    → verify_run_token j token (principal_of t.attestation) ≡ answer
    → accept_run answer false t ≡ (u, none)
    → Carries j u
unfolding accept_run
accept_run-Carries j token (verified id run) t u a e = subst (Carries j) (ap (λ r. r.0) e) (record {
  token = token;
  id = id;
  run = run;
  identified = refl;
  running = refl;
  bound = verify_run_token-Bound j token (principal_of t.attestation) id run a;
})
accept_run-Carries j token (failed missing) t u a e = absurd (ground arith)
accept_run-Carries j token (failed (unbound m)) t u a e = absurd (ground arith)
accept_run-Carries j token (failed (invalid m)) t u a e = absurd (ground arith)

then_verify-passed :
    (r : Translated × Option Refusal) (next : Translated → Translated × Option Refusal)
    (u : Translated)
    → then_verify r next ≡ (u, none)
    → (t : Translated) × (r ≡ (t, none)) × (next t ≡ (u, none))
then_verify-passed (t, some r) next u e = absurd (ground (arith, ap (λ p. p.1) e))
then_verify-passed (t, none) next u e = (t, refl, e)

verify_run-Carries :
    (j : Jwks) (lib : Library) (t u : Translated)
    → verify_run (some j) false lib t ≡ (u, none)
    → Carries j u
unfolding verify_run
verify_run-Carries j lib t u e = accept_run-Carries j _ _ t u refl e

no_none : (o : Decided) → ¬ (◌≡◌ {A = Option Decided} none (some o))
no_none o e = ground arith

false-ne-true : false ≢ true
false-ne-true e = ground arith

module _ {Ast Program : Type 0} (s : Server Ast Program) where
  -- `decide` allowed the call; and what such a call has passed, and what it leaves: the refusals of
  -- the target, the operation map and the run token; the registry and the circuit breaker; the
  -- policy; and the gates that charge it, whose state is what is left.
  pub record Allowed (g : Gates) (t : Translated) (now : ℕ) (clock : Clock) (o : Decided)
      : Type 0 where
    pub decided : decide s g t now clock ≡ some o
    pub allowed : o.decision.allowed ≡ true
    pub verified : verify s t ≡ (o.translated, none)
    pub carries :
        (j : Jwks) → s.run_tokens ≡ some j → s.run_token_optional ≡ false → Carries j o.translated
    pub admissible : Admissible g (call_of s o.translated) now
    pub by_policy : evaluate s.cel s.engine o.translated.policy ≡ some o.decision
    pub warning : Option Refusal
    pub charged : charge g (call_of s o.translated) o.decision clock ≡ (o.gates, (none, warning))

  verify-Carries :
      (j : Jwks) (t u : Translated)
      → s.run_tokens ≡ some j
      → s.run_token_optional ≡ false
      → verify s t ≡ (u, none)
      → Carries j u
  unfolding verify
  verify-Carries j t u is_j required e =
      let (t', _, last) =
        then_verify-passed
          (then_verify (verify_target s.lookup_addr s.library t)
            (verify_operation s.operations s.library))
          (verify_run s.run_tokens s.run_token_optional s.library) u e in
      verify_run-Carries j s.library t' u (rw (is_j, required) at last)

  charged_allowed :
      (g : Gates) (t : Translated) (now : ℕ) (clock : Clock) (d : Decision) (o : Decided)
      (r : Gates × (Option Refusal × Option Refusal))
      → charged s.has_audit t d r ≡ o
      → o.decision.allowed ≡ true
      → (w : Option Refusal) × (r ≡ (o.gates, (none, w))) × (o.translated ≡ t) × (o.decision ≡ d)
  unfolding charged refuse
  charged_allowed g t now clock d o (h, (some r, warning)) e allowed =
      absurd (false-ne-true (ap (λ x. x.decision.allowed) e ∙ allowed))
  charged_allowed g t now clock d o (h, (none, none)) e allowed = (
    none,
    ap (λ x. (x.gates, (none, none))) e,
    ap (λ x. x.translated) (sym e),
    ap (λ x. x.decision) (sym e),
  )
  charged_allowed g t now clock d o (h, (none, some w)) e allowed = (
    some w,
    ap (λ x. (x.gates, (none, some w))) e,
    ap (λ x. x.translated) (sym e),
    ap (λ x. x.decision) (sym e),
  )

  -- No refusal allows a call.
  tripped_refuses :
      (g : Gates) (t : Translated) (c : Call) (r : Refusal) (b : Breaker × Bool) (o : Decided)
      → tripped s.has_audit g t c r b ≡ some o
      → o.decision.allowed ≡ false
  unfolding tripped refuse
  tripped_refuses g t c r (b, false) o e = ap (λ x. x.decision.allowed) (sym (some-injective _ _ e))
  tripped_refuses g t c r (b, true) o e = elim (Option-cases (trip_event t c r)) [
    | inl no_event ↦ absurd (no_none o (rw (no_event, tripped) at e))
    | inr (event, is_event) ↦
        ap (λ x. x.decision.allowed) (sym (some-injective _ o (rw (is_event, tripped) at e)))
  ]

  trip_refuses :
      (b : Option Breaker) (g : Gates) (t : Translated) (c : Call) (r : Refusal) (o : Decided)
      → trip b s.has_audit g t c r ≡ some o
      → o.decision.allowed ≡ false
  unfolding trip
  trip_refuses none g t c r o e = absurd (ground arith)
  trip_refuses (some b) g t c r o e = tripped_refuses g t c r (first_trip b c.session) o e

  not_admitted_refuses :
      (g : Gates) (t : Translated) (c : Call) (r : Refusal) (o : Decided)
      → not_admitted s.has_audit g t c r ≡ some o
      → o.decision.allowed ≡ false
  unfolding not_admitted refuse
  not_admitted_refuses g t c r o e = elim (Bool-cases (r.gate == gate_circuit)) [
    | inl circuit ↦ trip_refuses g.breaker g t c r o (rw circuit at e)
    | inr other ↦ ap (λ x. x.decision.allowed) (sym (some-injective _ o (rw other at e)))
  ]

  module _ (g : Gates) (t : Translated) (now : ℕ) (clock : Clock) (o : Decided) where
    judged_allowed :
        (d : Decision)
        → judged s.has_audit g t (call_of s t) clock (some d) ≡ some o
        → o.decision.allowed ≡ true
        → (w : Option Refusal) × (charge g (call_of s t) d clock ≡ (o.gates, (none, w)))
          × (o.translated ≡ t)
          × (o.decision ≡ d)
    unfolding judged
    judged_allowed d e allowed = go d.allowed refl e
      where
        go :
            (b : Bool)
            → d.allowed ≡ b
            → (if not b
                then some (record { gates = g; translated = t; events = []; decision = d })
                else some (charged s.has_audit t d (charge g (call_of s t) d clock)))
              ≡ some o
            → (w : Option Refusal) × (charge g (call_of s t) d clock ≡ (o.gates, (none, w)))
              × (o.translated ≡ t)
              × (o.decision ≡ d)
        go true is e = charged_allowed g t now clock d o _ (some-injective _ o e) allowed
        go false is e =
            absurd (
              false-ne-true
                (sym is ∙ ap (λ x. x.decision.allowed) (some-injective _ o e) ∙ allowed))

    admitted_allowed :
        admitted s g t now clock (admit g (call_of s t) now) ≡ some o
        → o.decision.allowed ≡ true
        → (d : Decision) × (w : Option Refusal) × (admit g (call_of s t) now ≡ none)
          × (evaluate s.cel s.engine t.policy ≡ some d)
          × (charge g (call_of s t) d clock ≡ (o.gates, (none, w)))
          × (o.translated ≡ t)
          × (o.decision ≡ d)
    unfolding admitted
    admitted_allowed e allowed = elim (Option-cases (admit g (call_of s t) now)) [
      | inr (r, refused) ↦ absurd (
          false-ne-true (
            sym (not_admitted_refuses g t (call_of s t) r o (rw (refused, admitted) at e))
            ∙ allowed))
      | inl passed ↦ elim (Option-cases (evaluate s.cel s.engine t.policy)) [
        | inl crash ↦ absurd (no_none o (rw (passed, admitted, crash, judged) at e))
        | inr (d, decided) ↦
            let (w, charge', same, same') =
              judged_allowed d (rw (passed, admitted, decided) at e) allowed in
            (d, w, passed, decided, charge', same, same')
      ]
    ]

  decide_verified_allowed :
      (g : Gates) (t : Translated) (now : ℕ) (clock : Clock) (o : Decided)
      (v : Translated × Option Refusal)
      → verify s t ≡ v
      → decide s g t now clock ≡ some o
      → decide_verified s g now clock v ≡ some o
      → o.decision.allowed ≡ true
      → Allowed g t now clock o
  unfolding decide_verified refuse
  decide_verified_allowed g t now clock o (u, some r) is whole e allowed =
      absurd (false-ne-true (ap (λ x. x.decision.allowed) (some-injective _ o e) ∙ allowed))
  decide_verified_allowed g t now clock o (u, none) is whole e allowed =
      let (d, w, passed, decided, charge', same, same') =
        admitted_allowed g u now clock o e allowed in
      let is' : verify s t ≡ (o.translated, none) = is ∙ ap (λ x. (x, none)) (sym same) in
      record {
        decided = whole;
        allowed = allowed;
        verified = is';
        carries = λ j is_j required. verify-Carries j t o.translated is_j required is';
        admissible =
            subst (λ x. Admissible g (call_of s x) now) (sym same)
              ((admit_iff g (call_of s u) now).0 passed);
        by_policy =
            subst (λ x. evaluate s.cel s.engine x.policy ≡ some o.decision) (sym same)
              (decided ∙ ap some (sym same'));
        warning = w;
        charged =
            subst (λ x. charge g (call_of s x) o.decision clock ≡ (o.gates, (none, w))) (sym same)
              (subst (λ x. charge g (call_of s u) x clock ≡ (o.gates, (none, w))) (sym same')
                charge');
      }

  -- A call that `decide` allows has passed the checks of its target, of its operation
  -- and of its run token; where run tokens are verified and not optional, it carries a run that was
  -- issued to the workload that presents it; the registry and the breaker admit it; the decision is
  -- the policy's on the call as it was verified; and the gates have charged it without a refusal,
  -- which leaves the gates that `decide` leaves.
  pub decide-Allowed :
      (g : Gates) (t : Translated) (now : ℕ) (clock : Clock) (o : Decided)
      → decide s g t now clock ≡ some o
      → o.decision.allowed ≡ true
      → Allowed g t now clock o
  unfolding decide
  decide-Allowed g t now clock o e = decide_verified_allowed g t now clock o (verify s t) refl e e
