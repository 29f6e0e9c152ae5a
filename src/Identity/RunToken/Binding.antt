-- ===== src/Identity/RunToken/Binding.antt =====
-- What a run token that pkg/identity/runtoken.go accepts is bound to.
use nullfield.Prelude.{
  ◌≡◌, refl, sym, ap, ◌∙◌, ◌≢◌, String, [], ◌∷◌, Option, none, some, eq_iff, arith, ok, err, Result,
}
use nullfield.Identity.{Identity, Run}
use nullfield.Identity.RunToken.{
  Jwks, verified, run_of, claims_of, missing_claim, bind_claims, bind_run, bind_identity,
  verify_run_token,
}

-- The run is bound: it and its workload are named, the workload is the one that presents the token,
-- the run is what the verified token says, and the identity's session is the run.
pub record Bound (j : Jwks) (token workload : String) (id : Identity) (run : Run) : Type 0 where
  pub token_given : token ≢ ""
  pub source : Identity
  pub signed : j.verify_token token ≡ ok source
  pub claims : run ≡ run_of (claims_of source.claims)
  pub run_named : run.id ≢ ""
  pub presented : run.workload ≡ workload
  pub workload_named : workload ≢ ""
  pub session : id ≡ record source { session_id = run.id }

verified-injective : {a c : Identity} {b d : Run} → verified a b ≡ verified c d → (c ≡ a) × (d ≡ b)
verified-injective e = (cc, cc)

module _ (j : Jwks) where
  bind_run_tests :
      (source id : Identity) (bound run : Run) (workload : String)
      → bind_run j source bound workload ≡ verified id run
      → (bound.id ≢ "")
        × (bound.workload ≡ workload)
        × (workload ≢ "")
        × (verified (record source { session_id = bound.id }) bound ≡ verified id run)
  unfolding bind_run
  bind_run_tests source id bound run workload e = ground (
    arith,
    eq_iff bound.id "",
    eq_iff bound.workload "",
    eq_iff workload "",
    eq_iff bound.workload workload,
  )

  bind_run-verified :
      (source id : Identity) (bound run : Run) (workload : String)
      → bind_run j source bound workload ≡ verified id run
      → (run ≡ bound)
        × (bound.id ≢ "")
        × (bound.workload ≡ workload)
        × (workload ≢ "")
        × (id ≡ record source { session_id = bound.id })
  bind_run-verified source id bound run workload e =
      let (n, p, w, same) = bind_run_tests source id bound run workload e in
      let (ids, runs) = verified-injective same in (runs, n, p, w, ids)

  bind_claims-verified :
      (found : Option String) (source id : Identity) (run : Run) (workload : String)
      → bind_claims j found source workload ≡ verified id run
      → bind_run j source (run_of (claims_of source.claims)) workload ≡ verified id run
  unfolding bind_claims
  bind_claims-verified none source id run workload e = e
  bind_claims-verified (some c) source id run workload e = absurd (ground arith)

  bind_identity-verified :
      (answer : Result Identity) (id : Identity) (run : Run) (workload : String)
      → bind_identity j answer workload ≡ verified id run
      → (source : Identity) × (answer ≡ ok source)
        × (bind_run j source (run_of (claims_of source.claims)) workload ≡ verified id run)
  unfolding bind_identity
  bind_identity-verified (err m) id run workload e = absurd (ground arith)
  bind_identity-verified (ok source) id run workload e = (
    source,
    refl,
    bind_claims-verified (missing_claim ("iat" ∷ "txn" ∷ "req_wl" ∷ []) (claims_of source.claims))
        source id run workload e,
  )

  -- A run token is accepted only if it was given, verified, and issued to the workload that presents
  -- it, which is named; and the session is then the run that the token names.
  pub verify_run_token-Bound :
      (token workload : String) (id : Identity) (run : Run)
      → verify_run_token j token workload ≡ verified id run
      → Bound j token workload id run
  unfolding verify_run_token
  verify_run_token-Bound token workload id run e =
      let (source, signed, bound) =
        bind_identity-verified (j.verify_token token) id run workload (ground arith) in
      let (same, named, presented, workload_named, session) =
        bind_run-verified source id (run_of (claims_of source.claims)) run workload bound in
      record {
        token_given = λ t. ground (arith, eq_iff token "");
        source = source;
        signed = signed;
        claims = same;
        run_named = λ n. named (sym (ap (λ r. r.id) same) ∙ n);
        presented = ap (λ r. r.workload) same ∙ presented;
        workload_named = workload_named;
        session = session ∙ ap (λ r. record source { session_id = r.id }) (sym same);
      }
