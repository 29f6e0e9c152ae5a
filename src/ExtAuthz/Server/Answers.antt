-- ===== src/ExtAuthz/Server/Answers.antt =====
-- What the answers of `Check` of pkg/extauthz/server.go say of the calls that they let on.
use mathlib.Core.Option.{some-injective}
use nullfield.Prelude.{
  ℕ, ◌≡◌, refl, sym, ◌∙◌, ap, ◌≢◌, ◌⊎◌, inl, inr, String, true, false, List, [], ◌∷◌, Option, none,
  some, arith, if◌then◌else◌, Option-cases, Bool-cases, is_some,
}
use nullfield.Identity.RunToken.{run_token_header}
use nullfield.Api.{Rule}
use nullfield.Policy.Rules.{new_rule_engine}
use nullfield.Policy.Engine.{Decision}
use nullfield.Audit.{AuditEvent}
use nullfield.Gates.{Gates, Clock}
use nullfield.ExtAuthz.{mode_enforce, CheckResponse, ok_response, code_ok, ok, denied}
use nullfield.ExtAuthz.Held.{respond_lem}
use nullfield.ExtAuthz.Translate.{Codec, CheckRequest, Translated, translate}
use nullfield.ExtAuthz.Decide.{Server, Decided, no_decision, decide}
use nullfield.ExtAuthz.Decide.Admissions.{Allowed, decide-Allowed}
use nullfield.ExtAuthz.Server.Total.{check_total}
use nullfield.ExtAuthz.Server.{
  with_run, decision_event, without_token, answer, report, reported, check_translated, check,
}

no_none : {A : Type 0} {a : A} → ¬ (◌≡◌ {A = Option A} none (some a))
no_none e = ground arith

false-ne-true : false ≢ true
false-ne-true e = ground arith

module _ {Ast Program : Type 0} (s : Server Ast Program) where
  -- The headers that Envoy is to remove before it forwards the call
  pub removed : List String
  removed = if is_some s.run_tokens then s.library.to_lower run_token_header ∷ [] else []

  -- Either the mode is the enforcing one and the decision does not allow the call, and the answer
  -- refuses it; or the answer lets the call on, without the run token where run tokens are verified.
  without_token-ok :
      without_token s ok ≡ record { code = code_ok; http_response = ok_response removed }
  unfolding without_token removed
  without_token-ok = elim (Bool-cases (is_some s.run_tokens)) [
    | inl e ↦ rw e refl
    | inr e ↦ rw e refl
  ]

  answer_cases :
      (d : Decision)
      → ((s.mode ≡ mode_enforce) × (d.allowed ≡ false) × (answer s d ≡ denied d.reason))
        ⊎ (((s.mode ≢ mode_enforce) ⊎ (d.allowed ≡ true))
            × (answer s d ≡ record { code = code_ok; http_response = ok_response removed }))
  unfolding answer
  answer_cases d = elim (respond_lem s.mode d) [
    | inl (m, no', e) ↦ inl (m, no', ap (without_token s) e)
    | inr (h, e) ↦ inr (h, ap (without_token s) e ∙ without_token-ok)
  ]

  -- The answer that lets a call on
  abbrev pub LetOn : CheckResponse → Type 0
  LetOn resp = resp ≡ record { code = code_ok; http_response = ok_response removed }

  denied-code : (reason : String) → (denied reason).code ≢ code_ok
  denied-code reason e = omega arith

  answer_enforced :
      (d : Decision)
      → s.mode ≡ mode_enforce
      → (answer s d).code ≡ code_ok
      → (d.allowed ≡ true) × LetOn (answer s d)
  answer_enforced d m e = elim (answer_cases d) [
    | inl (_, _, no') ↦ absurd (denied-code d.reason (sym (ap (λ r. r.code) no') ∙ e))
    | inr (inl other, _) ↦ absurd (other m)
    | inr (inr allowed, on) ↦ (allowed, on)
  ]

  answer_observed : (d : Decision) → s.mode ≢ mode_enforce → LetOn (answer s d)
  answer_observed d m = elim (answer_cases d) [
    | inl (enforced, _, _) ↦ absurd (m enforced)
    | inr (_, on) ↦ on
  ]

  report_answer :
      (o : Decided) (h : Gates) (events : List AuditEvent) (resp : CheckResponse)
      → report s o ≡ some (h, events, resp)
      → (o.gates ≡ h) × (answer s o.decision ≡ resp)
  unfolding report
  report_answer o h events resp e =
      elim (Option-cases
        (with_run o.translated.policy.run o.translated.policy.identity (decision_event s o))) [
          | inl stuck ↦ absurd (no_none (rw (stuck, report) at e))
          | inr (event, is) ↦
              let same = some-injective _ _ (rw (is, report) at e) in
              (ap (λ r. r.0) same, ap (λ r. r.2) same)
        ]

  reported_answer :
      (x : Option Decided) (h : Gates) (events : List AuditEvent) (resp : CheckResponse)
      → reported s x ≡ some (h, events, resp)
      → (o : Decided) × (x ≡ some o) × (o.gates ≡ h) × (answer s o.decision ≡ resp)
  unfolding reported
  reported_answer none h events resp e = absurd (no_none e)
  reported_answer (some o) h events resp e =
      let (gates, resp') = report_answer o h events resp e in (o, refl, gates, resp')

  -- Every answer is that to a decision: to the one that `decide` reaches about the translated call,
  -- or to one that does not allow the call.
  abbrev Source :
      Gates → Option Translated × Option String → ℕ → Clock → Gates → CheckResponse → Type 0
  Source g r now clock h resp =
      (d : Decision) × (answer s d ≡ resp)
      × ((d.allowed ≡ false)
          ⊎ ((t : Translated) × (o : Decided) × (r ≡ (some t, none))
              × (decide s g t now clock ≡ some o)
              × (o.decision ≡ d)
              × (o.gates ≡ h)))

  check_translated-Source :
      (g h : Gates) (r : Option Translated × Option String) (now : ℕ) (clock : Clock)
      (events : List AuditEvent) (resp : CheckResponse)
      → check_translated s g r now clock ≡ some (h, events, resp)
      → Source g r now clock h resp
  unfolding check_translated
  check_translated-Source g h (out, some m) now clock events resp e =
      (record no_decision { reason = m }, ap (λ r. r.2) (some-injective _ _ e), inl refl)
  check_translated-Source g h (none, none) now clock events resp e = absurd (no_none e)
  check_translated-Source g h (some t, none) now clock events resp e =
      let (o, decided, gates, resp') = reported_answer (decide s g t now clock) h events resp e in
      (o.decision, resp', inr (t, o, refl, decided, refl, gates))

  -- In the enforcing mode a call is let on only if it was translated without an error, and `decide`
  -- allowed it, with all that this takes; the gates are then those that `decide` leaves, and where
  -- run tokens are verified, the token is removed from what is forwarded.
  pub check-forwarded :
      (codec : Codec) (g h : Gates) (req : CheckRequest) (now : ℕ) (clock : Clock)
      (events : List AuditEvent) (resp : CheckResponse)
      → s.mode ≡ mode_enforce
      → check s codec g req now clock ≡ some (h, events, resp)
      → resp.code ≡ code_ok
      → (t : Translated) × (o : Decided) × (translate codec req ≡ (some t, none))
        × Allowed s g t now clock o
        × (o.gates ≡ h)
        × LetOn resp
  unfolding check
  check-forwarded codec g h req now clock events resp m e on =
      let (d, is, source) =
        check_translated-Source g h (translate codec req) now clock events resp e in
      let (allowed, let_on) = answer_enforced d m (ap (λ r. r.code) is ∙ on) in
      elim source [
        | inl refused ↦ absurd (false-ne-true (sym refused ∙ allowed))
        | inr (t, o, translated, decided, same, gates) ↦ (
          t,
          o,
          translated,
          decide-Allowed s g t now clock o decided (ap (λ x. x.allowed) same ∙ allowed),
          gates,
          sym is ∙ let_on,
        )
      ]

  -- Outside the enforcing mode every request is answered, and the answer lets it on, whatever the
  -- decision, with the run token removed where run tokens are verified. The engine is one that
  -- `NewRuleEngine` built from rules.
  pub check_observes :
      (rules : List Rule)
      → s.engine ≡ new_rule_engine s.cel rules
      → s.mode ≢ mode_enforce
      → (codec : Codec) (g : Gates) (req : CheckRequest) (now : ℕ) (clock : Clock)
      → (h : Gates) × (events : List AuditEvent) × (resp : CheckResponse) × (check s codec g req now
            clock
          ≡ some (h, events, resp))
        × LetOn resp
  unfolding check
  check_observes rules built m codec g req now clock =
      let ((h, events, resp), e) = check_total s rules built codec g req now clock in
      let (d, is, _) = check_translated-Source g h (translate codec req) now clock events resp e in
      (h, events, resp, e, sym is ∙ answer_observed d m)
