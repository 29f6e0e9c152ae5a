-- ===== src/Identity/Integrity/Sessions.antt =====
-- What pkg/identity/integrity.go holds a session to.
use mathlib.Core.Option.{some-injective}
use mathlib.Core.Path.{subst}
use nullfield.Prelude.{
  ℕ, ◌≡◌, refl, sym, ap, ◌∙◌, ◌≢◌, inl, inr, String, true, List, [], ◌∷◌, Option, none, some,
  eq_iff, eq_refl, arith, Option-cases,
}
use nullfield.Identity.{Identity}
use nullfield.Identity.Integrity.{
  SessionBinder, ReplayDetector, IntegrityChecker, bind_found, bind_session, bind_with, replay_with,
  check_bound, check_integrity, sweep_checker,
}

-- What happens to a checker: an identity is checked, or expired entries are swept.
pub data Event : Type 0 where
  checked : Identity → ℕ → Event
  swept : ℕ → Event

-- The subject that a session is bound to.
abbrev pub bound_to : Option SessionBinder → String → Option String
bound_to none session = none
bound_to (some b) session = b.sessions session

module _ (quote : String → String) where
  unfoldable pub step : IntegrityChecker → Event → IntegrityChecker
  step ic (checked id now) = (check_integrity quote ic id now).0
  step ic (swept now) = sweep_checker ic now

  unfoldable pub run : IntegrityChecker → List Event → IntegrityChecker
  run ic [] = ic
  run ic (e ∷ events) = run (step ic e) events

  -- Binding is on, and the session is bound to the subject.
  abbrev Binds : IntegrityChecker → String → String → Type 0
  Binds ic session subject = (ic.bind_enabled ≡ true) × (bound_to ic.binder session ≡ some subject)

  bind_found-Binds :
      (found : Option String) (b : SessionBinder) (session subject k x : String)
      → b.sessions session ≡ found
      → b.sessions k ≡ some x
      → (bind_found quote found b session subject).0.sessions k ≡ some x
  unfolding bind_found
  bind_found-Binds none b session subject k x e h = ground (arith, eq_iff session k)
  bind_found-Binds (some y) b session subject k x e h = h

  bind_session-Binds :
      (b : SessionBinder) (session subject k x : String)
      → b.sessions k ≡ some x
      → (bind_session quote b session subject).0.sessions k ≡ some x
  unfolding bind_session
  bind_session-Binds b session subject k x h =
      ground (arith, bind_found-Binds (b.sessions session) b session subject k x refl h)

  bind_found-binds :
      (found : Option String) (b : SessionBinder) (session subject : String)
      → b.sessions session ≡ found
      → (bind_found quote found b session subject).1 ≡ none
      → (bind_found quote found b session subject).0.sessions session ≡ some subject
  unfolding bind_found
  bind_found-binds none b session subject f p = ground (arith, eq_refl session)
  bind_found-binds (some y) b session subject f p =
      f ∙ ap (λ x. some x) ((eq_iff y subject).0 (ground arith))

  bind_session-binds :
      (b : SessionBinder) (session subject : String)
      → session ≢ ""
      → (bind_session quote b session subject).1 ≡ none
      → (bind_session quote b session subject).0.sessions session ≡ some subject
  unfolding bind_session
  bind_session-binds b session subject named e =
      ground
        (arith, eq_iff session "", bind_found-binds (b.sessions session) b session subject refl)

  -- What the first half of a check, or a whole one, does to the sessions that are bound.
  record Passes (binder : Option SessionBinder) (id : Identity)
      (out : IntegrityChecker × Option String) : Type 0 where
    on : out.0.bind_enabled ≡ true
    keeps : (k x : String) → bound_to binder k ≡ some x → bound_to out.0.binder k ≡ some x
    binds :
        out.1 ≡ none → id.session_id ≢ "" → bound_to out.0.binder id.session_id ≡ some id.subject

  bind_with-Passes :
      (c : SessionBinder) (ic : IntegrityChecker) (id : Identity)
      → ic.bind_enabled ≡ true
      → Passes (some c) id (bind_with quote (some c) ic id)
  unfolding bind_with
  bind_with-Passes c ic id on = rw on (record {
    on = refl;
    keeps = λ k x h. bind_session-Binds c id.session_id id.subject k x h;
    binds = λ e named. bind_session-binds c id.session_id id.subject named e;
  })

  replay_with-binder :
      (d : Option ReplayDetector) (ic : IntegrityChecker) (id : Identity) (now : ℕ)
      → ((replay_with quote d ic id now).0.binder ≡ ic.binder)
        × ((replay_with quote d ic id now).0.bind_enabled ≡ ic.bind_enabled)
  unfolding replay_with
  replay_with-binder none ic id now = (refl, refl)
  replay_with-binder (some d) ic id now = ground arith

  check_bound-Passes :
      (binder : Option SessionBinder) (out : IntegrityChecker × Option String) (id : Identity)
      (now : ℕ)
      → Passes binder id out
      → Passes binder id (check_bound quote out id now)
  unfolding check_bound
  check_bound-Passes binder (ic, some e) id now p = p
  check_bound-Passes binder (ic, none) id now p =
      let (same, on) = replay_with-binder ic.detector ic id now in
      record {
        on = on ∙ p.on;
        keeps = λ k x h. ap (λ b. bound_to b k) same ∙ p.keeps k x h;
        binds = λ e named. ap (λ b. bound_to b id.session_id) same ∙ p.binds refl named;
      }

  check_integrity-Passes :
      (ic : IntegrityChecker) (id : Identity) (now : ℕ) (b : SessionBinder)
      → ic.bind_enabled ≡ true
      → ic.binder ≡ some b
      → Passes ic.binder id (check_integrity quote ic id now)
  unfolding check_integrity
  check_integrity-Passes ic id now b on e =
      check_bound-Passes ic.binder (bind_with quote ic.binder ic id) id now
        (subst (λ o. Passes o id (bind_with quote o ic id)) (sym e) (bind_with-Passes b ic id on))

  Binds-binder :
      (ic : IntegrityChecker) (k x : String)
      → Binds ic k x
      → (b : SessionBinder) × (ic.binder ≡ some b)
  Binds-binder ic k x (on, h) = go ic.binder refl h
    where
      go :
          (o : Option SessionBinder)
          → ic.binder ≡ o
          → bound_to o k ≡ some x
          → (b : SessionBinder) × (ic.binder ≡ some b)
      go none e f = absurd (ground arith)
      go (some b) e f = (b, e)

  step-Binds :
      (ic : IntegrityChecker) (e : Event) (k x : String) → Binds ic k x → Binds (step ic e) k x
  unfolding step sweep_checker
  step-Binds ic (checked id now) k x h =
      let (b, e) = Binds-binder ic k x h in
      let p = check_integrity-Passes ic id now b h.0 e in (p.on, p.keeps k x h.1)
  step-Binds ic (swept now) k x (on, h) = elim (Option-cases ic.detector) [
    | inl e ↦ rw e (on, h)
    | inr (d, e) ↦ rw e (on, h)
  ]

  run-Binds :
      (ic : IntegrityChecker) (events : List Event) (k x : String)
      → Binds ic k x
      → Binds (run ic events) k x
  unfolding run
  run-Binds ic [] k x h = h
  run-Binds ic (e ∷ events) k x h = run-Binds (step ic e) events k x (step-Binds ic e k x h)

  -- Where sessions are bound, a check that passes binds its session, if that is named, to its
  -- subject for good: whatever checks and sweeps come between, a later check of the session passes
  -- only for the same subject.
  pub check_integrity-subject :
      (ic : IntegrityChecker) (b : SessionBinder) (first later : Identity) (start now : ℕ)
      (events : List Event)
      → ic.bind_enabled ≡ true
      → ic.binder ≡ some b
      → first.session_id ≢ ""
      → later.session_id ≡ first.session_id
      → (check_integrity quote ic first start).1 ≡ none
      → (check_integrity quote (run (step ic (checked first start)) events) later now).1 ≡ none
      → later.subject ≡ first.subject
  unfolding step
  check_integrity-subject ic b first later start now events on e named same p q =
      let passed = check_integrity-Passes ic first start b on e in
      let held =
        run-Binds (check_integrity quote ic first start).0 events first.session_id first.subject
          (passed.on, passed.binds p named) in
      let ic' = run (check_integrity quote ic first start).0 events in
      let (b', e') = Binds-binder ic' first.session_id first.subject held in
      let again = check_integrity-Passes ic' later now b' held.0 e' in
      some-injective _ _ (
        sym (again.binds q (λ s. named (sym same ∙ s)))
        ∙ ap (bound_to (check_integrity quote ic' later now).0.binder) same
        ∙ again.keeps first.session_id first.subject held.1)
