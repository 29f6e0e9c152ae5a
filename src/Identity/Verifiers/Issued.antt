-- ===== src/Identity/Verifiers/Issued.antt =====
-- Who answers for an identity that the several providers of pkg/identity/multi.go accept.
use mathlib.Core.Path.{subst}
use nullfield.Prelude.{
  ◌≡◌, refl, sym, ◌∙◌, ap, ◌≢◌, inl, inr, String, List, [], ◌∷◌, ◌++◌, Option, some, ◌==◌, eq_iff,
  arith, Bool-cases, Result, Result-cases, ok, err, strip_prefix, or_else,
}
use nullfield.Value.{text, Fields, lookup}
use nullfield.Identity.{Identity}
use nullfield.Identity.Verifiers.{
  Headers, IssuerProvider, MultiVerifier, peek_issuer, verify_issued, verify_any, verify_multi,
}

-- A provider among them accepts the request, and it is that of the issuer, if one is found.
record AnsweredFor (providers : List IssuerProvider) (iss : String) (get : Headers) (id : Identity)
    : Type 0 where
  before : List IssuerProvider
  provider : IssuerProvider
  after : List IssuerProvider
  split : providers ≡ before ++ provider ∷ after
  accepts : provider.verify get ≡ ok id
  issued : iss ≢ "" → provider.issuer ≡ iss

-- A provider among them accepts the request; and where there are claims that name an issuer by a text
-- that is not empty, it is a provider of that issuer.
pub record Answered (providers : List IssuerProvider) (parsed : Option Fields) (get : Headers)
    (id : Identity) : Type 0 where
  pub before : List IssuerProvider
  pub provider : IssuerProvider
  pub after : List IssuerProvider
  pub split : providers ≡ before ++ provider ∷ after
  pub accepts : provider.verify get ≡ ok id
  pub issued :
      (claims : Fields) (iss : String)
      → parsed ≡ some claims
      → lookup "iss" claims ≡ some (text iss)
      → iss ≢ ""
      → provider.issuer ≡ iss

err-ne-ok : {id : Identity} {e : String} → ◌≡◌ {A = Result Identity} (err e) (ok id) → ⊥
err-ne-ok e = ground arith

later :
    (p : IssuerProvider) (providers : List IssuerProvider) (iss : String) (get : Headers)
    (id : Identity)
    → AnsweredFor providers iss get id
    → AnsweredFor (p ∷ providers) iss get id
later p providers iss get id a = record {
  before = p ∷ a.before;
  provider = a.provider;
  after = a.after;
  split = ap (λ l. p ∷ l) a.split;
  accepts = a.accepts;
  issued = a.issued;
}

verify_issued-AnsweredFor :
    (providers : List IssuerProvider) (iss : String) (get : Headers) (id : Identity)
    → verify_issued providers iss get ≡ ok id
    → AnsweredFor providers iss get id
unfolding verify_issued
verify_issued-AnsweredFor [] iss get id e = absurd (err-ne-ok e)
verify_issued-AnsweredFor (p ∷ providers) iss get id e = elim (Bool-cases (p.issuer == iss)) [
  | inl same ↦ record {
    before = [];
    provider = p;
    after = providers;
    split = refl;
    accepts = rw (same, verify_issued) at e;
    issued = λ _. (eq_iff p.issuer iss).0 same;
  }
  | inr other ↦
      later p providers iss get id
        (verify_issued-AnsweredFor providers iss get id (rw (other, verify_issued) at e))
]

verify_any-AnsweredFor :
    (providers : List IssuerProvider) (last : String) (get : Headers) (id : Identity)
    → verify_any providers last get ≡ ok id
    → AnsweredFor providers "" get id
unfolding verify_any
verify_any-AnsweredFor [] last get id e = absurd (err-ne-ok e)
verify_any-AnsweredFor (p ∷ providers) last get id e = elim (Result-cases (p.verify get)) [
  | inl (x, accepts) ↦ record {
    before = [];
    provider = p;
    after = providers;
    split = refl;
    accepts = accepts ∙ (rw (accepts, verify_any) at e);
    issued = λ n. absurd (n refl);
  }
  | inr (m, fails) ↦
      later p providers "" get id
        (verify_any-AnsweredFor providers m get id (rw (fails, verify_any) at e))
]

peek_issuer-named :
    (parsed : Option Fields) (claims : Fields) (iss : String)
    → parsed ≡ some claims
    → lookup "iss" claims ≡ some (text iss)
    → peek_issuer parsed ≡ iss
peek_issuer-named parsed claims iss is names = rw (is, names) refl

AnsweredFor-Answered :
    (providers : List IssuerProvider) (parsed : Option Fields) (get : Headers) (id : Identity)
    → AnsweredFor providers (peek_issuer parsed) get id
    → Answered providers parsed get id
AnsweredFor-Answered providers parsed get id a = record {
  before = a.before;
  provider = a.provider;
  after = a.after;
  split = a.split;
  accepts = a.accepts;
  issued = λ claims iss is names n.
      let same = peek_issuer-named parsed claims iss is names in
      a.issued (λ e. n (sym same ∙ e)) ∙ same;
}

-- The claims of the token, with or without the scheme Bearer, as far as they are parsed
abbrev pub claims_of_token : (String → Option Fields) → MultiVerifier → Headers → Option Fields
claims_of_token parse m get = parse (or_else (strip_prefix "Bearer " (get m.header)) (get m.header))

-- An identity that several providers accept is accepted by one of them; and where the token, with or
-- without the scheme Bearer, parses to claims whose "iss" is a text that is not empty, by a provider
-- of that issuer. Where it does not, any of the providers may be the one.
pub verify_multi-Answered :
    (parse : String → Option Fields) (m : MultiVerifier) (get : Headers) (id : Identity)
    → verify_multi parse m get ≡ ok id
    → Answered m.providers (claims_of_token parse m get) get id
unfolding verify_multi
verify_multi-Answered parse m get id e =
    let parsed = claims_of_token parse m get in
    let iss = peek_issuer parsed in
    AnsweredFor-Answered m.providers parsed get id (elim (Bool-cases (get m.header == "")) [
      | inl missing ↦ absurd (err-ne-ok (rw (missing, verify_multi) at e))
      | inr given ↦ elim (Bool-cases (iss == "")) [
        | inr named ↦
            verify_issued-AnsweredFor m.providers iss get id (rw (given, verify_multi, named) at e)
        | inl unnamed ↦
            subst (λ i. AnsweredFor m.providers i get id) (sym ((eq_iff iss "").0 unnamed))
              (verify_any-AnsweredFor m.providers _ get id (rw (given, verify_multi, unnamed) at e))
      ]
    ])
