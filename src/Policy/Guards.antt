-- ===== src/Policy/Guards.antt =====
-- pkg/policy/rules.go: the identity and delegation guards of a rule. The guards' second result,
-- a reason that no caller reads, is kept.
pub mod Audience
pub mod Meaning
use nullfield.Prelude.{
  ℕ, suc, String, Bool, true, false, not, ◌&&◌, List, [], ◌∷◌, Option, none, some, ◌==◌,
  if◌then◌else◌, is_empty, any, all, ltb, is_positive, gt_count, decimal, decimal_int, ◌+++◌,
}
use nullfield.Value.{
  Value, null, bool, number, text, texts, list, object, Items, nil, cons, Fields, end, field,
  lookup,
}
use nullfield.Api.{Rule, RuleIdentityGuard, RuleDelegationGuard}
use nullfield.Policy.Engine.{Request}

-- The loop of `actChainDepth` steps from a claims map to the object under its first "act" key.
unfoldable mutual
  pub act_chain_depth : Fields → ℕ
  act_chain_depth end = 0
  act_chain_depth (field k v claims) = if k == "act" then act_depth v else act_chain_depth claims

  pub act_depth : Value → ℕ
  act_depth (object act) = suc (act_chain_depth act)
  act_depth null = 0
  act_depth (bool b) = 0
  act_depth (number n) = 0
  act_depth (text s) = 0
  act_depth (texts ss) = 0
  act_depth (list vs) = 0

unfoldable pub item_texts : Items → List String
item_texts nil = []
item_texts (cons (text s) vs) = if s == "" then item_texts vs else s ∷ item_texts vs
item_texts (cons _ vs) = item_texts vs

-- The type switch of `claimAudiences` on `claims["aud"]`.
unfoldable pub audiences : Option Value → List String
audiences (some (text s)) = if s == "" then [] else s ∷ []
audiences (some (list vs)) = item_texts vs
audiences (some (texts ss)) = ss
audiences _ = []

unfoldable pub claim_audiences : Fields → List String
claim_audiences claims = audiences (lookup "aud" claims)

unfoldable pub audience_is_subset : List String → List String → Bool
audience_is_subset child parent = all (λ a. any (λ p. p == a) parent) child

-- `claims["act"].(map[string]any)`
unfoldable pub parent_act : Fields → Option Fields
parent_act claims = elim (lookup "act" claims) [ some (object act) ↦ some act | _ ↦ none ]

-- The `AudienceMustNarrow` block, given the parent.
unfoldable pub audience_narrows : Fields → Fields → Bool
audience_narrows claims parent =
    if is_empty (claim_audiences claims) && is_empty (claim_audiences parent)
    then true
    else audience_is_subset (claim_audiences claims) (claim_audiences parent)

-- The guards on the claims of an authenticated identity.
unfoldable pub claims_guards : RuleIdentityGuard → Fields → Bool × String
claims_guards g claims =
    if g.require_act_chain && not (ltb 0 (act_chain_depth claims))
    then (false, "act chain required (RFC 8693) but missing on token")
    else if g.audience_must_narrow
    then elim (parent_act claims) [
      | none ↦ (true, "")
      | some parent ↦
          if audience_narrows claims parent
          then (true, "")
          else (false, "audience widened across delegation (RFC 8707 violation)")
    ]
    else (true, "")

abbrev pub claims_of_request : Request → Option Fields
claims_of_request req = elim req.identity [ none ↦ none | some id ↦ id.claims ]

unfoldable pub identity_guards : Option RuleIdentityGuard → Option Fields → Bool × String
identity_guards none claims = (true, "")
identity_guards (some g) none = (false, "rule identity guards declared but request has no identity")
identity_guards (some g) (some claims) = claims_guards g claims

unfoldable pub evaluate_identity_guards : Rule → Request → Bool × String
evaluate_identity_guards rule req = identity_guards rule.identity (claims_of_request req)

-- Callers without claims count as depth 0.
unfoldable pub depth_of_request : Request → ℕ
depth_of_request req = elim (claims_of_request req) [
  | none ↦ 0
  | some claims ↦ act_chain_depth claims
]

unfoldable pub delegation_guards : Option RuleDelegationGuard → ℕ → Bool × String
delegation_guards none depth = (true, "")
delegation_guards (some g) depth =
    if not (is_positive g.max_depth)
    then (true, "")
    else if gt_count depth g.max_depth
    then (
      false,
      "act chain depth " +++ decimal depth +++ " exceeds maxDepth " +++ decimal_int g.max_depth,
    )
    else (true, "")

unfoldable pub evaluate_delegation_guards : Rule → Request → Bool × String
evaluate_delegation_guards rule req = delegation_guards rule.delegation (depth_of_request req)
