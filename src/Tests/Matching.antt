-- ===== src/Tests/Matching.antt =====
-- Runs of pkg/policy/rules.go on single rules, of pkg/extauthz/response.go and of
-- pkg/operations/operations.go, of pkg/registry and of pkg/identity/drift.go.
use nullfield.Prelude.{
  equal_fold, fold_by, beyond_ascii, insert, empty, ◌+++◌, ◌≡◌, refl, ◌↔◌, String, true, false,
  List, [], ◌∷◌, none, some, pos, ok,
}
use nullfield.Value.{Fields, end, field, text, bool, object}
use nullfield.Identity.{Identity}
use nullfield.Prelude.Dict
use nullfield.Api.{Rule, deny, ToolRegistryEntry}
use nullfield.Policy.Engine.{Request}
use nullfield.Policy.Match.{matches_claims}
use nullfield.Policy.Match.Meaning.{tested, matches_claims-tested}
use nullfield.Policy.Guards.{evaluate_identity_guards, evaluate_delegation_guards}
use nullfield.Policy.Guards.Meaning.{
  IdentityGuardsHold, DelegationHolds, evaluate_identity_guards_iff, evaluate_delegation_guards_iff,
}
use nullfield.Registry.Lifecycle.{Hashing}
use nullfield.Identity.Drift.{ClaimsSnapshot, DriftDetector, Wording}
use nullfield.Operations.{
  Library, Operation, OperationMap, match_op, validate, resolve, split, param,
}
use nullfield.Operations.Names.{Named, resolve-Named}

abbrev agent_claims : Fields
agent_claims = field "sub" (text "agent") (field "act" (object (field "sub" (text "user") end)) end)

abbrev agent : Identity
agent = record {
  subject = "agent";
  issuer = "";
  session_id = "s1";
  scopes = [];
  raw = "";
  kind = "agent";
  provider = "oidc";
  groups = [];
  claims = some agent_claims;
  expires_at = pos 0;
  jti = "";
}

abbrev request : Request
request = record {
  method = "tools/call";
  tool_name = "read_file";
  arguments = none;
  identity = some agent;
  transport = "http";
  target = "";
  operation = "";
  action = "";
  params = [];
  run = none;
}

abbrev guarded : Rule
guarded = record {
  id = "";
  action = deny;
  mcp_method = "";
  tool_names = "Read_File" ∷ [];
  direction = "";
  destination = "";
  require_identity = false;
  max_calls_per_min = pos 0;
  cel_expression = "";
  inject_cred = none;
  param_rules = [];
  when = none;
  hold = none;
  scope = none;
  budget = none;
  identity = some (record { require_act_chain = true; audience_must_narrow = false });
  delegation = some (record { max_depth = pos 2 });
  inspection = none;
  audit_labels = [];
  reason = "";
}

matches_claims-tested_example :
    matches_claims (field "admin" (bool true) end) agent_claims
    ≡ matches_claims (tested (field "admin" (bool true) end)) agent_claims
matches_claims-tested_example = matches_claims-tested (field "admin" (bool true) end) agent_claims

evaluate_identity_guards_iff_example :
    ((evaluate_identity_guards guarded request).0 ≡ true) ↔ IdentityGuardsHold guarded request
evaluate_identity_guards_iff_example = evaluate_identity_guards_iff guarded request

evaluate_delegation_guards_iff_example :
    ((evaluate_delegation_guards guarded request).0 ≡ true) ↔ DelegationHolds guarded request
evaluate_delegation_guards_iff_example = evaluate_delegation_guards_iff guarded request

abbrev entry_of : String → String → ToolRegistryEntry
entry_of name description = record {
  name = name;
  description = description;
  allowed_scopes = [];
  signature_hash = "";
  max_calls_per_min = pos 0;
}

abbrev tools : List ToolRegistryEntry
tools = entry_of "read_file" "first" ∷ entry_of "read_file" "second" ∷ []

-- Stand-ins that leave every text as it is.
abbrev plain_library : Library
plain_library = record {
  split_host_port = λ s. none;
  to_lower = λ s. s;
  path_unescape = λ s. some s;
  quote = λ s. s;
}

abbrev delete_repo : Operation
delete_repo = record { name = "repos.delete"; method = "DELETE"; path = "/repos/{owner}/{repo}" }

abbrev delete_segments : List String
delete_segments = "repos" ∷ "acme" ∷ "site" ∷ []

abbrev delete_params : Dict.Dict String
delete_params = ("owner", "acme") ∷ ("repo", "site") ∷ []

delete_repo-validate : validate plain_library delete_repo ≡ ok tt
unfolding validate param
delete_repo-validate = refl

delete_repo-match_op : match_op delete_repo "delete" delete_segments ≡ some delete_params
unfolding match_op split param Dict.put
delete_repo-match_op = refl

abbrev repo_map : OperationMap
repo_map = record { targets = ("api.example", delete_repo ∷ []) ∷ [] }

delete_run :
    resolve plain_library repo_map "api.example" "DELETE /repos/acme/site?force=1"
    ≡ some ("repos.delete", some delete_params)
unfolding resolve Dict.lookup param Dict.put
delete_run = refl

resolve-Named_example :
    Named plain_library repo_map "api.example" "DELETE /repos/acme/site?force=1" "repos.delete"
      delete_params
resolve-Named_example =
    resolve-Named plain_library repo_map "api.example" "DELETE /repos/acme/site?force=1"
      "repos.delete" delete_params delete_run

-- A digest that joins the name and the description, and a sort of lists that are sorted.
abbrev plain_hashing : Hashing
plain_hashing = record {
  canonical = λ name description scopes. name +++ description;
  sort = λ xs. xs;
}

-- A sort of lists that are sorted, and quotes that are left out.
abbrev plain_wording : Wording
plain_wording = record { sort = λ xs. xs; quote = λ s. s }

abbrev snapshot : ClaimsSnapshot
snapshot = record { scopes = "read"; groups = "" }

abbrev detector : DriftDetector
detector = record { sessions = insert "s1" snapshot empty }

-- The large sigma and the two small ones fold together.
sigma_folds : equal_fold "ΣΕΣ" "σες" ≡ true
unfolding equal_fold fold_by beyond_ascii
sigma_folds = refl
