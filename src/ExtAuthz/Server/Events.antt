-- ===== src/ExtAuthz/Server/Events.antt =====
-- The events that `Check` of pkg/extauthz/server.go emits.
use mathlib.Core.Option.{some-injective}
use nullfield.Prelude.{
  ℕ, suc, ◌+◌, ◌≡◌, refl, sym, ◌∙◌, ap, inl, inr, String, Bool, true, false, not, List, [], ◌∷◌,
  ◌++◌, Option, none, some, ◌==◌, arith, if◌then◌else◌, Option-cases,
}
use nullfield.Policy.Engine.{Decision}
use nullfield.Policy.Rules.{evaluate}
use nullfield.Audit.{AuditEvent}
use nullfield.Identity.{Identity, Run}
use nullfield.Circuit.{Breaker, first_trip}
use nullfield.Gates.{Gates, Call, Refusal, Clock, gate_circuit, admit, charge}
use nullfield.ExtAuthz.{CheckResponse}
use nullfield.ExtAuthz.Translate.{Codec, CheckRequest, Translated, translate}
use nullfield.ExtAuthz.Decide.{
  Server, Decided, emit, trip_event, tripped, trip, not_admitted, charged, judged, verify, call_of,
  admitted, decide_verified, decide,
}
use nullfield.ExtAuthz.Server.{
  with_run, decision_event, blind_event, report, reported, check_translated, check,
}

-- How many of the events are decisions
unfoldable pub decisions : List AuditEvent → ℕ
decisions [] = 0
decisions (e ∷ events) =
    if e.type == "arbiter.decision" then suc (decisions events) else decisions events

-- No decision is among the events.
abbrev Silent : Decided → Type 0
Silent o = decisions o.events ≡ 0

no_none : {A : Type 0} {a : A} → ¬ (◌≡◌ {A = Option A} none (some a))
no_none e = ground arith

decisions-append : (xs ys : List AuditEvent) → decisions (xs ++ ys) ≡ decisions xs + decisions ys
unfolding decisions
decisions-append [] ys = omega arith
decisions-append (x ∷ xs) ys = let ih = decisions-append xs ys in ground arith

decisions-emit_other :
    (has_audit : Bool) (e : AuditEvent)
    → (e.type == "arbiter.decision") ≡ false
    → decisions (emit has_audit e) ≡ 0
unfolding decisions
decisions-emit_other false e h = refl
decisions-emit_other true e h = rw h refl

decisions-emit :
    (e : AuditEvent) → (e.type == "arbiter.decision") ≡ true → decisions (emit true e) ≡ 1
unfolding decisions
decisions-emit e h = rw h refl

trip_event-type :
    (t : Translated) (c : Call) (r : Refusal) (e : AuditEvent)
    → trip_event t c r ≡ some e
    → e.type ≡ "circuit.tripped"
unfolding trip_event
trip_event-type t c r e h = elim (Option-cases t.policy.identity) [
  | inl i ↦ absurd (no_none (rw (i, trip_event) at h))
  | inr (id, i) ↦ elim (Option-cases t.attestation) [
    | inl a ↦ absurd (no_none (rw (i, trip_event, a) at h))
    | inr (att, a) ↦ ap (λ x. x.type) (sym (some-injective _ e (rw (i, trip_event, a) at h)))
  ]
]

with_run-type :
    (run : Option Run) (id : Option Identity) (e e' : AuditEvent)
    → with_run run id e ≡ some e'
    → e'.type ≡ e.type
unfolding with_run
with_run-type none id e e' h = ap (λ x. x.type) (sym (some-injective _ _ h))
with_run-type (some run) none e e' h = absurd (no_none h)
with_run-type (some run) (some id) e e' h = ap (λ x. x.type) (sym (some-injective _ _ h))

charged-Silent :
    (has_audit : Bool) (t : Translated) (d : Decision)
    (r : Gates × (Option Refusal × Option Refusal))
    → Silent (charged has_audit t d r)
unfolding charged decisions
charged-Silent has_audit t d (h, (some r, warning)) = refl
charged-Silent has_audit t d (h, (none, none)) = refl
charged-Silent has_audit t d (h, (none, some w)) = decisions-emit_other has_audit _ refl

tripped-Silent :
    (has_audit : Bool) (g : Gates) (t : Translated) (c : Call) (r : Refusal) (b : Breaker × Bool)
    (o : Decided)
    → tripped has_audit g t c r b ≡ some o
    → Silent o
unfolding tripped decisions
tripped-Silent has_audit g t c r (b, false) o e =
    ap (λ x. decisions x.events) (sym (some-injective _ o e))
tripped-Silent has_audit g t c r (b, true) o e = elim (Option-cases (trip_event t c r)) [
  | inl no_event ↦ absurd (no_none (rw (no_event, tripped) at e))
  | inr (event, is) ↦
      ap (λ x. decisions x.events) (sym (some-injective _ o (rw (is, tripped) at e)))
      ∙ decisions-emit_other has_audit event (rw (trip_event-type t c r event is) refl)
]

trip-Silent :
    (b : Option Breaker) (has_audit : Bool) (g : Gates) (t : Translated) (c : Call) (r : Refusal)
    (o : Decided)
    → trip b has_audit g t c r ≡ some o
    → Silent o
unfolding trip
trip-Silent none has_audit g t c r o e = absurd (no_none e)
trip-Silent (some b) has_audit g t c r o e =
    tripped-Silent has_audit g t c r (first_trip b c.session) o e

-- Of a decision that is taken, one event at most is emitted before, and it is none of decisions.
if-Silent :
    (b : Bool) (x y : Option Decided) (o : Decided)
    → (x ≡ some o → Silent o)
    → (y ≡ some o → Silent o)
    → (if b then x else y) ≡ some o
    → Silent o
if-Silent true x y o h k e = h e
if-Silent false x y o h k e = k e

not_admitted-Silent :
    (has_audit : Bool) (g : Gates) (t : Translated) (c : Call) (r : Refusal) (o : Decided)
    → not_admitted has_audit g t c r ≡ some o
    → Silent o
unfolding not_admitted decisions
not_admitted-Silent has_audit g t c r o =
    if-Silent (r.gate == gate_circuit) _ _ o (trip-Silent g.breaker has_audit g t c r o)
      (λ e. ap (λ x. decisions x.events) (sym (some-injective _ o e)))

judged-Silent :
    (has_audit : Bool) (g : Gates) (t : Translated) (c : Call) (clock : Clock) (d : Option Decision)
    (o : Decided)
    → judged has_audit g t c clock d ≡ some o
    → Silent o
unfolding judged decisions
judged-Silent has_audit g t c clock none o = λ e. absurd (no_none e)
judged-Silent has_audit g t c clock (some d) o =
    if-Silent (not d.allowed) _ _ o (λ e. ap (λ x. decisions x.events) (sym (some-injective _ o e)))
      (λ e.
        ap (λ x. decisions x.events) (sym (some-injective _ o e))
        ∙ charged-Silent has_audit t d (charge g c d clock))

module _ {Ast Program : Type 0} (s : Server Ast Program) where
  admitted-Silent :
      (g : Gates) (t : Translated) (now : ℕ) (clock : Clock) (r : Option Refusal) (o : Decided)
      → admitted s g t now clock r ≡ some o
      → Silent o
  unfolding admitted
  admitted-Silent g t now clock (some r) o = not_admitted-Silent s.has_audit g t (call_of s t) r o
  admitted-Silent g t now clock none o =
      judged-Silent s.has_audit g t (call_of s t) clock (evaluate s.cel s.engine t.policy) o

  decide-Silent :
      (g : Gates) (t : Translated) (now : ℕ) (clock : Clock) (o : Decided)
      → decide s g t now clock ≡ some o
      → Silent o
  unfolding decide decide_verified decisions
  decide-Silent g t now clock o = go (verify s t)
    where
      go : (v : Translated × Option Refusal) → decide_verified s g now clock v ≡ some o → Silent o
      go (u, some r) e = ap (λ x. decisions x.events) (sym (some-injective _ o e))
      go (u, none) e = admitted-Silent g u now clock (admit g (call_of s u) now) o e

  report-decisions :
      (o : Decided) (h : Gates) (events : List AuditEvent) (resp : CheckResponse)
      → s.has_audit ≡ true
      → Silent o
      → report s o ≡ some (h, events, resp)
      → decisions events ≡ 1
  unfolding report
  report-decisions o h events resp audit silent e =
      elim (Option-cases
        (with_run o.translated.policy.run o.translated.policy.identity (decision_event s o))) [
          | inl stuck ↦ absurd (no_none (rw (stuck, report) at e))
          | inr (event, is) ↦
              let typed : (event.type == "arbiter.decision") ≡ true =
                rw
                  (with_run-type o.translated.policy.run o.translated.policy.identity
                    (decision_event s o) event is)
                  refl in
              let same : o.events ++ emit true event ≡ events =
                ap (λ b. o.events ++ emit b event) (sym audit)
                ∙ ap (λ r. r.1) (some-injective _ _ (rw (is, report) at e)) in
              omega (
                arith,
                ap decisions same,
                decisions-append o.events (emit true event),
                silent,
                decisions-emit event typed,
              )
        ]

  blind_type :
      (out : Option Translated) (m : String)
      → ((blind_event s out m).type == "arbiter.decision") ≡ true
  blind_type none m = refl
  blind_type (some t) m = refl

  -- With an emitter of events, every request that `Check` answers leaves exactly one event of type
  -- arbiter.decision.
  pub check-decisions :
      (codec : Codec) (g h : Gates) (req : CheckRequest) (now : ℕ) (clock : Clock)
      (events : List AuditEvent) (resp : CheckResponse)
      → s.has_audit ≡ true
      → check s codec g req now clock ≡ some (h, events, resp)
      → decisions events ≡ 1
  unfolding check check_translated reported
  check-decisions codec g h req now clock events resp audit = go (translate codec req)
    where
      decided :
          (t : Translated) (x : Option Decided)
          → decide s g t now clock ≡ x
          → reported s x ≡ some (h, events, resp)
          → decisions events ≡ 1
      decided t none is e = absurd (no_none e)
      decided t (some o) is e =
          report-decisions o h events resp audit (decide-Silent g t now clock o is) e

      go :
          (r : Option Translated × Option String)
          → check_translated s g r now clock ≡ some (h, events, resp)
          → decisions events ≡ 1
      go (out, some m) e =
          sym (
            ap decisions (
              ap (λ b. emit b (blind_event s out m)) (sym audit)
              ∙ ap (λ r. r.1) (some-injective _ _ e)))
          ∙ decisions-emit (blind_event s out m) (blind_type out m)
      go (none, none) e = absurd (no_none e)
      go (some t, none) e = decided t (decide s g t now clock) refl e
