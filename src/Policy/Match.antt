-- ===== src/Policy/Match.antt =====
-- pkg/policy/rules.go: the match predicates of a rule.
pub mod Meaning
use nullfield.Prelude.{
  String, Bool, true, false, ◌&&◌, ◌||◌, [], ◌∷◌, Option, none, some, ◌==◌, if◌then◌else◌, any,
  contains, equal_fold,
}
use nullfield.Value.{
  Value, null, bool, number, text, texts, list, object, Items, nil, cons, Fields, end, field,
  lookup, sprint,
}
use nullfield.Identity.{Identity}
use nullfield.Api.{Rule}
use nullfield.Policy.Engine.{Request}

unfoldable pub matches_method : Rule → Request → Bool
matches_method rule req = rule.mcp_method == "" || rule.mcp_method == req.method

-- One round of the loop of `matchesToolName`.
abbrev pub names_tool : String → String → Bool
names_tool tool name = name == "*" || equal_fold name tool

unfoldable pub matches_tool_name : Rule → Request → Bool
matches_tool_name rule req = elim rule.tool_names [
  | [] ↦ true
  | name ∷ names ↦ any (names_tool req.tool_name) (name ∷ names)
]

unfoldable pub any_item : String → Items → Bool
any_item value nil = false
any_item value (cons v vs) = sprint v == value || any_item value vs

-- The type switch of `claimContains` on `id.Claims[key]`.
unfoldable pub value_contains : Option Value → String → Bool
value_contains (some (list items)) value = any_item value items
value_contains (some (texts items)) value = any (λ item. item == value) items
value_contains (some (text s)) value = contains s value
value_contains (some null) value = false
value_contains (some (bool b)) value = false
value_contains (some (number n)) value = false
value_contains (some (object fs)) value = false
value_contains none value = false

unfoldable pub claim_contains : Fields → String → String → Bool
claim_contains claims key value = value_contains (lookup key claims) value

-- `actual, _ := id.Claims[key].(string)`
abbrev pub text_or_empty : Option Value → String
text_or_empty (some (text s)) = s
text_or_empty (some null) = ""
text_or_empty (some (bool b)) = ""
text_or_empty (some (number n)) = ""
text_or_empty (some (texts ss)) = ""
text_or_empty (some (list vs)) = ""
text_or_empty (some (object fs)) = ""
text_or_empty none = ""

-- One round of the loop of `matchesClaims`: a condition of another type holds of any claim.
unfoldable pub claim_holds : String → Value → Fields → Bool
claim_holds key (object cond) claims = elim (lookup "contains" cond) [
  | none ↦ true
  | some wanted ↦ claim_contains claims key (sprint wanted)
]
claim_holds key (text cond) claims = text_or_empty (lookup key claims) == cond
claim_holds key null claims = true
claim_holds key (bool b) claims = true
claim_holds key (number n) claims = true
claim_holds key (texts ss) claims = true
claim_holds key (list vs) claims = true

unfoldable pub matches_claims : Fields → Fields → Bool
matches_claims end claims = true
matches_claims (field key cond rest) claims =
    claim_holds key cond claims && matches_claims rest claims

-- The three tests of `matchesWhen`, each skipped where the block does not set its field.
unfoldable pub identity_type_matches : String → Option Identity → Bool
identity_type_matches wanted none = wanted == "" || wanted == "any"
identity_type_matches wanted (some id) = wanted == "" || wanted == "any" || id.kind == wanted

unfoldable pub provider_matches : String → Option Identity → Bool
provider_matches wanted none = wanted == ""
provider_matches wanted (some id) =
    if wanted == ""
    then true
    else if wanted == "unknown"
    then id.provider == ""
    else equal_fold id.provider wanted

abbrev claims_of : Option Identity → Option Fields
claims_of none = none
claims_of (some id) = id.claims

unfoldable pub claims_match : Fields → Option Fields → Bool
claims_match end claims = true
claims_match (field key cond rest) none = false
claims_match (field key cond rest) (some claims) = matches_claims (field key cond rest) claims

unfoldable pub matches_when : Rule → Request → Bool
matches_when rule req = elim rule.when [
  | none ↦ true
  | some w ↦
      identity_type_matches w.identity_type req.identity
      && provider_matches w.provider req.identity
      && claims_match w.claims (claims_of req.identity)
]
