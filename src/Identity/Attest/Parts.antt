-- ===== src/Identity/Attest/Parts.antt =====
-- The parts of the principals that pkg/identity/attest.go accepts.
use Prim.Native.Char.{Char}
use nullfield.Prelude.{
  ◌≡◌, refl, sym, ap, ◌∙◌, ◌≢◌, inl, inr, String, true, false, List, [], ◌∷◌, none, some, ◌==◌,
  eq_iff, arith, ◌+++◌, join, split_on, split_on-join, join-split_on, is_free, strip_prefix,
  strip_prefix-append, Bool-cases,
}
use nullfield.Identity.Attest.{
  Attestation, attester_mesh_spiffe, attest_parts, without_scheme, mesh_attest,
}

-- The path that names the three parts: `<trust-domain>/ns/<namespace>/sa/<service-account>`.
abbrev pub path_of : Attestation → String
path_of a = join "/" (a.trust_domain ∷ "ns" ∷ a.namespace ∷ "sa" ∷ a.service_account ∷ [])

attest_parts-join :
    (principal : String) (parts : List String) (a : Attestation)
    → attest_parts principal parts ≡ some a
    → (a.principal ≡ principal)
      × (parts ≡ a.trust_domain ∷ "ns" ∷ a.namespace ∷ "sa" ∷ a.service_account ∷ [])
unfolding attest_parts
attest_parts-join principal [] a e = absurd (ground arith)
attest_parts-join principal (td ∷ []) a e = absurd (ground arith)
attest_parts-join principal (td ∷ ns ∷ []) a e = absurd (ground arith)
attest_parts-join principal (td ∷ ns ∷ nn ∷ []) a e = absurd (ground arith)
attest_parts-join principal (td ∷ ns ∷ nn ∷ sa ∷ []) a e = absurd (ground arith)
attest_parts-join principal (td ∷ ns ∷ nn ∷ sa ∷ acc ∷ x ∷ rest) a e = absurd (ground arith)
attest_parts-join principal (td ∷ ns ∷ nn ∷ sa ∷ acc ∷ []) a e =
    (ground arith, ground (arith, eq_iff ns "ns", eq_iff sa "sa"))

abbrev slash : Char
slash = "/"

join-split_slash : (s : String) → join "/" (split_on b'/' s) ≡ s
join-split_slash s = join-split_on slash s

abbrev parts_of : Attestation → List String
parts_of a = a.trust_domain ∷ "ns" ∷ a.namespace ∷ "sa" ∷ a.service_account ∷ []

-- The parts of an attestation that was read spell the principal again, less its scheme.
pub mesh_attest-path_of :
    (principal : String) (a : Attestation)
    → mesh_attest principal ≡ some a
    → (a.principal ≡ principal) × (path_of a ≡ without_scheme principal)
unfolding mesh_attest
mesh_attest-path_of principal a e =
    let (same, parts) =
      attest_parts-join principal (split_on b'/' (without_scheme principal)) a (ground arith) in
    (same, ap (join "/") (sym parts) ∙ join-split_slash (without_scheme principal))

-- A part that can be read back: it is not empty and has no slash.
abbrev pub IsPart : String → Type 0
IsPart s = (s ≢ "") × (is_free b'/' s ≡ true)

abbrev pub spelled : String → String → String → String
spelled td ns account = "spiffe://" +++ join "/" (td ∷ "ns" ∷ ns ∷ "sa" ∷ account ∷ [])

spelled-named : (t : String) → (("spiffe://" +++ t) == "") ≡ false
unfolding strip_prefix
spelled-named t = elim (Bool-cases (("spiffe://" +++ t) == "")) [
  | inl e ↦ absurd (
      none-ne-some (
        ap (strip_prefix "spiffe://") (sym ((eq_iff ("spiffe://" +++ t) "").0 e))
        ∙ strip_prefix-append "spiffe://" t))
  | inr e ↦ e
]
  where
    none-ne-some : {x : String} → none ≢ some x
    none-ne-some e = cc

attest_parts_read :
    (principal td ns account : String)
    → td ≢ ""
    → ns ≢ ""
    → account ≢ ""
    → attest_parts principal (td ∷ "ns" ∷ ns ∷ "sa" ∷ account ∷ [])
      ≡ some (record {
        principal = principal;
        trust_domain = td;
        namespace = ns;
        service_account = account;
        attester = attester_mesh_spiffe;
      })
unfolding attest_parts
attest_parts_read principal td ns account n1 n2 n3 =
    ground (arith, eq_iff td "", eq_iff ns "", eq_iff account "")

-- A principal that is written from a trust domain, a namespace and a service account, none of them
-- empty or with a slash in it, is read back as them.
pub spelled-mesh_attest :
    (td ns account : String)
    → IsPart td
    → IsPart ns
    → IsPart account
    → mesh_attest (spelled td ns account)
      ≡ some (record {
        principal = spelled td ns account;
        trust_domain = td;
        namespace = ns;
        service_account = account;
        attester = attester_mesh_spiffe;
      })
unfolding mesh_attest without_scheme is_free
spelled-mesh_attest td ns account (n1, f1) (n2, f2) (n3, f3) =
    let body = join "/" (td ∷ "ns" ∷ ns ∷ "sa" ∷ account ∷ []) in
    rw
      (
        spelled-named body,
        strip_prefix-append "spiffe://" body,
        split_on-join slash td ("ns" ∷ ns ∷ "sa" ∷ account ∷ [])
            (f1, (refl, (f2, (refl, (f3, tt))))),
      )
      (attest_parts_read (spelled td ns account) td ns account n1 n2 n3)
