-- ===== src/Identity/Verifiers.antt =====
-- pkg/identity: the verifiers of identity.go, the several providers of multi.go, the choice of select.go
-- and the headers of headers.go. A provider's check of a signature, the parse of a token without one
-- and `strings.ToLower` are parameters.
pub mod Issued
use nullfield.Prelude.{
  String, Bool, true, false, not, ◌&&◌, List, [], ◌∷◌, Option, none, some, ◌==◌, if◌then◌else◌,
  ◌+++◌, ℤ, pos, strip_prefix, or_else, Map, Result, ok, err,
}
use nullfield.Value.{Fields, lookup}
use nullfield.Identity.{Identity}
use nullfield.Identity.RunToken.{claim_string}

-- `Header.Get` of a request
abbrev pub Headers : Type 0
Headers = String → String

-- `Get` of `MapHeaders`
abbrev pub get_header : (String → String) → Map String → String → String
get_header to_lower headers name = or_else (headers (to_lower name)) ""

abbrev pub identity_of : String → String → String → Identity
identity_of subject session raw = record {
  subject = subject;
  issuer = "";
  session_id = session;
  scopes = [];
  raw = raw;
  kind = "";
  provider = "";
  groups = [];
  claims = none;
  expires_at = pos 0;
  jti = "";
}

-- `Verify` of a `HeaderVerifier`
unfoldable pub verify_header : String → Headers → Result Identity
unfolding strip_prefix
verify_header header get =
    let val = get header in
    if val == ""
    then err ("missing identity header: " +++ header)
    else elim (strip_prefix "Bearer " val) [
      | none ↦ err ("malformed Bearer token in " +++ header)
      | some token ↦ ok (identity_of token (get "Mcp-Session-Id") token)
    ]

-- `Verify` of a `NoopVerifier`
abbrev pub verify_noop : Headers → Result Identity
verify_noop get = ok (identity_of "dev-user" (get "Mcp-Session-Id") "")

-- A `JWKSVerifier`, as `MultiVerifier` uses it
pub record IssuerProvider : Type 0 where
  pub issuer : String
  pub verify : Headers → Result Identity

-- `MultiVerifier`
pub record MultiVerifier : Type 0 where
  pub providers : List IssuerProvider
  pub header : String

-- `NewMultiVerifier`
abbrev pub new_multi_verifier : List IssuerProvider → String → MultiVerifier
new_multi_verifier providers header = record {
  providers = providers;
  header = if header == "" then "Authorization" else header;
}

-- `peekIssuer`, given the claims of the token, if they parse
abbrev pub peek_issuer : Option Fields → String
peek_issuer none = ""
peek_issuer (some claims) = claim_string claims "iss"

-- The loop over the providers of one issuer
unfoldable pub verify_issued : List IssuerProvider → String → Headers → Result Identity
verify_issued [] iss get = err ("no provider configured for issuer: " +++ iss)
verify_issued (p ∷ providers) iss get =
    let rest = verify_issued providers iss get in if p.issuer == iss then p.verify get else rest

-- The loop that tries every provider; the last error of none is written `%!w(<nil>)`.
unfoldable pub verify_any : List IssuerProvider → String → Headers → Result Identity
verify_any [] last get = err ("all providers failed, last error: " +++ last)
verify_any (p ∷ providers) last get = elim (p.verify get) [
  | ok id ↦ ok id
  | err e ↦ verify_any providers e get
]

-- `Verify` of a `MultiVerifier`
unfoldable pub verify_multi : (String → Option Fields) → MultiVerifier → Headers → Result Identity
unfolding verify_issued verify_any strip_prefix
verify_multi parse m get =
    let raw = get m.header in
    let token = or_else (strip_prefix "Bearer " raw) raw in
    let iss = peek_issuer (parse token) in
    if raw == ""
    then err ("missing header: " +++ m.header)
    else if not (iss == "")
    then verify_issued m.providers iss get
    else verify_any m.providers "%!w(<nil>)" get

-- `EnvVerifierConfig`
pub record EnvVerifierConfig : Type 0 where
  pub jwks_url : String
  pub issuer : String
  pub audiences : List String
  pub clock_skew : ℤ
  pub allowed_algs : List String
  pub header : String
  pub trust_header : Bool

-- `JWKSVerifierConfig`
pub record JwksVerifierConfig : Type 0 where
  pub provider_name : String
  pub issuer : String
  pub jwks_uri : String
  pub audiences : List String
  pub clock_skew : ℤ
  pub allowed_algs : List String
  pub header : String
  pub cache_ttl : ℤ
  pub require_expiry : Bool
  pub max_lifetime : ℤ
  pub bare : Bool
  pub type : String

-- What `VerifierFromEnv` builds
pub data EnvVerifier : Type 0 where
  jwks_verifier : JwksVerifierConfig → EnvVerifier
  header_verifier : String → EnvVerifier

-- The configuration of the verifier of tokens
abbrev pub env_provider : EnvVerifierConfig → JwksVerifierConfig
env_provider cfg = record {
  provider_name = "env";
  issuer = cfg.issuer;
  jwks_uri = cfg.jwks_url;
  audiences = cfg.audiences;
  clock_skew = cfg.clock_skew;
  allowed_algs = cfg.allowed_algs;
  header = cfg.header;
  cache_ttl = pos 0;
  require_expiry = false;
  max_lifetime = pos 0;
  bare = false;
  type = "";
}

-- `VerifierFromEnv`: `none` for nil
unfoldable pub verifier_from_env : EnvVerifierConfig → Result (Option EnvVerifier)
verifier_from_env cfg =
    if not (cfg.jwks_url == "") && cfg.trust_header
    then err
        "NULLFIELD_JWKS_URL and NULLFIELD_TRUST_HEADER_IDENTITY are both set: one validates tokens and the other accepts them unverified, so pick one"
    else if not (cfg.jwks_url == "")
    then (if cfg.issuer == ""
        then err
            "JWKS URL configured without an issuer: set NULLFIELD_JWKS_ISSUER to the expected iss claim, or declare identity.providers in the policy. A JWKS URL alone cannot validate a token"
        else ok (some (jwks_verifier (env_provider cfg))))
    else if cfg.trust_header
    then ok (some (header_verifier cfg.header))
    else ok none
