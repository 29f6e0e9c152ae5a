-- ===== src/Tests/Callers.antt =====
-- Runs of pkg/identity: attest.go, runtoken.go, integrity.go and multi.go.
use nullfield.Prelude.{
  ne_of_eq-false, ◌≡◌, refl, ◌==◌, String, true, false, [], ◌∷◌, none, some, pos, ok, err,
  if◌then◌else◌, empty, is_some, arith, split_on, strip_prefix, is_free, Option,
}
use nullfield.Value.{end, field, text, number, lookup}
use nullfield.Identity.{Identity, Run}
use nullfield.Identity.Attest.{
  attester_mesh_spiffe, mesh_attest, attest_parts, without_scheme, Attestation,
}
use nullfield.Identity.Attest.Parts.{spelled, spelled-mesh_attest}
use nullfield.Identity.Verifiers.{
  IssuerProvider, MultiVerifier, new_multi_verifier, verify_multi, verify_issued, verify_any,
}
use nullfield.Identity.Verifiers.Issued.{claims_of_token, Answered, verify_multi-Answered}
use nullfield.Value.{Fields}
use nullfield.Identity.RunToken.{
  Jwks, verified, verify_run_token, bind_identity, bind_claims, bind_run, missing_claim,
}
use nullfield.Identity.RunToken.Binding.{Bound, verify_run_token-Bound}
use nullfield.Identity.Integrity.{
  IntegrityChecker, SessionBinder, ReplayDetector, check_integrity, check_replay, bind_with,
  check_bound, replay_with, bind_session, bind_found,
}
use nullfield.Identity.Integrity.Sessions.{checked, step, run, check_integrity-subject}
use nullfield.Identity.Integrity.Replays.{used, expired_at, replay_run, check_replay-refused}

spelled-mesh_attest_example :
    mesh_attest (spelled "cluster.local" "agents" "planner")
    ≡ some (record {
      principal = spelled "cluster.local" "agents" "planner";
      trust_domain = "cluster.local";
      namespace = "agents";
      service_account = "planner";
      attester = attester_mesh_spiffe;
    })
unfolding is_free
spelled-mesh_attest_example =
    spelled-mesh_attest "cluster.local" "agents" "planner"
      (ne_of_eq-false "cluster.local" "" refl, refl) (ne_of_eq-false "agents" "" refl, refl)
      (ne_of_eq-false "planner" "" refl, refl)

abbrev planner : Attestation
planner = record {
  principal = "spiffe://cluster.local/ns/agents/sa/planner";
  trust_domain = "cluster.local";
  namespace = "agents";
  service_account = "planner";
  attester = attester_mesh_spiffe;
}

planner-mesh_attest : mesh_attest "spiffe://cluster.local/ns/agents/sa/planner" ≡ some planner
unfolding mesh_attest attest_parts without_scheme split_on strip_prefix
planner-mesh_attest = refl

abbrev caller : String → String → String → Identity
caller subject session jti = record {
  subject = subject;
  issuer = "";
  session_id = session;
  scopes = [];
  raw = "";
  kind = "agent";
  provider = "";
  groups = [];
  claims =
      some (
        field "iat" (number "1")
          (field "txn" (text "run-1") (field "req_wl" (text "planner") end)));
  expires_at = pos 0;
  jti = jti;
}

-- A verifier that knows one token
abbrev jwks : Jwks
jwks = record {
  verify_token = λ t. if t == "token-1" then ok (caller "alice" "" "t1") else err "bad signature";
  quote = λ s. s;
}

abbrev run_1 : Run
run_1 = record { id = "run-1"; workload = "planner"; context = none }

token-verified :
    verify_run_token jwks "token-1" "planner" ≡ verified (caller "alice" "run-1" "t1") run_1
unfolding verify_run_token bind_identity bind_claims bind_run missing_claim lookup
token-verified = refl

verify_run_token-Bound_example : Bound jwks "token-1" "planner" (caller "alice" "run-1" "t1") run_1
verify_run_token-Bound_example =
    verify_run_token-Bound jwks "token-1" "planner" (caller "alice" "run-1" "t1") run_1
      token-verified

abbrev binder : SessionBinder
binder = record { sessions = empty }

abbrev checker : IntegrityChecker
checker = record {
  binder = some binder;
  detector = none;
  bind_enabled = true;
  replay_enabled = false;
}

first_check : (check_integrity (λ s. s) checker (caller "alice" "s1" "t1") 0).1 ≡ none
unfolding check_integrity bind_with check_bound replay_with bind_session bind_found
first_check = refl

later_check :
    (check_integrity
      (λ s. s)
      (run
        (λ s. s)
        (step (λ s. s) checker (checked (caller "alice" "s1" "t1") 0))
        (checked (caller "bob" "s1" "t2") 1 ∷ []))
      (caller "alice" "s1" "t3")
      2).1
    ≡ none
unfolding run step check_integrity bind_with check_bound replay_with bind_session bind_found
later_check = refl

check_integrity-subject_example : ◌≡◌ {A = String} "alice" "alice"
check_integrity-subject_example =
    check_integrity-subject (λ s. s) checker binder (caller "alice" "s1" "t1")
      (caller "alice" "s1" "t3") 0 2 (checked (caller "bob" "s1" "t2") 1 ∷ []) refl refl
      (ne_of_eq-false "s1" "" refl) refl first_check later_check

abbrev detector : ReplayDetector
detector = record { seen = empty; max_age = pos 600 }

first_use : (check_replay (λ s. s) detector "t1" 0).1 ≡ none
unfolding check_replay
first_use = refl

check_replay-refused_example :
    is_some
      (check_replay
        (λ s. s)
        (replay_run
          (λ s. s)
          (check_replay (λ s. s) detector "t1" 0).0
          (used "t2" 5 ∷ expired_at 599 ∷ []))
        "t1"
        600).1
    ≡ true
check_replay-refused_example =
    check_replay-refused (λ s. s) detector "t1" 0 600 600 (used "t2" 5 ∷ expired_at 599 ∷ [])
      (ne_of_eq-false "t1" "" refl) refl first_use (omega arith)

-- A provider of one issuer
abbrev issuer_provider : IssuerProvider
issuer_provider = record {
  issuer = "https://issuer";
  verify = λ get. ok (caller "alice" "s1" "t1");
}

abbrev providers : MultiVerifier
providers = new_multi_verifier (issuer_provider ∷ []) ""

abbrev issued_claims : String → Option Fields
issued_claims token = some (field "iss" (text "https://issuer") end)

alice-verify_multi :
    verify_multi issued_claims providers (λ h. "Bearer t") ≡ ok (caller "alice" "s1" "t1")
unfolding verify_multi verify_issued verify_any lookup strip_prefix
alice-verify_multi = refl

verify_multi-Answered_example :
    Answered
      (issuer_provider ∷ [])
      (claims_of_token issued_claims providers (λ h. "Bearer t"))
      (λ h. "Bearer t")
      (caller "alice" "s1" "t1")
verify_multi-Answered_example =
    verify_multi-Answered issued_claims providers (λ h. "Bearer t") (caller "alice" "s1" "t1")
      alice-verify_multi
