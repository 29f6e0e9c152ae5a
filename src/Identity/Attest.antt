-- ===== src/Identity/Attest.antt =====
-- pkg/identity/attest.go: the workload that the mesh vouches for.
pub mod Parts
use nullfield.Prelude.{
  String, Bool, true, false, ◌||◌, not, List, [], ◌∷◌, Option, none, some, ◌==◌, if◌then◌else◌,
  split_on, strip_prefix, or_else,
}

abbrev pub attester_mesh_spiffe : String
attester_mesh_spiffe = "mesh-spiffe"

abbrev pub attester_mesh_header : String
attester_mesh_header = "mesh-header"

abbrev pub attester_none : String
attester_none = "none"

abbrev pub peer_principal_header : String
peer_principal_header = "x-nullfield-peer-principal"

-- `Attestation`
pub record Attestation : Type 0 where
  pub principal : String
  pub trust_domain : String
  pub namespace : String
  pub service_account : String
  pub attester : String

-- `Attest` of a `MeshAttester`, on the parts of the principal
unfoldable pub attest_parts : String → List String → Option Attestation
attest_parts principal (td ∷ ns ∷ namespace ∷ sa ∷ account ∷ []) =
    if not (ns == "ns") || not (sa == "sa")
    then none
    else if td == "" || namespace == "" || account == ""
    then none
    else some (record {
      principal = principal;
      trust_domain = td;
      namespace = namespace;
      service_account = account;
      attester = attester_mesh_spiffe;
    })
attest_parts principal _ = none

-- `strings.TrimPrefix(principal, "spiffe://")`
unfoldable pub without_scheme : String → String
unfolding strip_prefix
without_scheme principal = or_else (strip_prefix "spiffe://" principal) principal

-- `Attest` of a `MeshAttester`
unfoldable pub mesh_attest : String → Option Attestation
unfolding attest_parts without_scheme split_on
mesh_attest principal =
    if principal == ""
    then none
    else attest_parts principal (split_on b'/' (without_scheme principal))

-- `Attest` of a `MeshHeaderAttester`
unfoldable pub header_attest : String → Option Attestation
unfolding mesh_attest
header_attest principal = elim (mesh_attest principal) [
  | none ↦ none
  | some att ↦ some (record att { attester = attester_mesh_header })
]
