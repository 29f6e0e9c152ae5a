-- ===== src/Policy/Match/Meaning.antt =====
-- What the match predicates of pkg/policy/rules.go say about a rule and a request.
use nullfield.Prelude.{
  ◌≡◌, refl, ◌↔◌, ◌⊎◌, inl, inr, String, Bool, true, false, ◌&&◌, List, [], ◌∷◌, eq_iff, arith, ap,
  Bool-cases, any, Any, equal_fold, if◌then◌else◌, is_some,
}
use nullfield.Value.{
  Value, null, bool, number, text, texts, list, object, Fields, end, field, lookup,
}
use nullfield.Api.{Rule}
use nullfield.Policy.Engine.{Request}
use nullfield.Policy.Match.{
  matches_method, matches_tool_name, names_tool, matches_claims, claim_holds,
}

abbrev pub MethodMatches : Rule → Request → Type 0
MethodMatches rule req = (rule.mcp_method ≡ "") ⊎ (rule.mcp_method ≡ req.method)

-- No names at all, or one that is "*" or the tool's up to letter case.
abbrev pub ToolMatches : Rule → Request → Type 0
ToolMatches rule req =
    (rule.tool_names ≡ [])
    ⊎ Any (λ name. (name ≡ "*") ⊎ (equal_fold name req.tool_name ≡ true)) rule.tool_names

pub matches_method_iff :
    (rule : Rule) (req : Request) → (matches_method rule req ≡ true) ↔ MethodMatches rule req
unfolding matches_method
matches_method_iff rule req =
    ground (arith, eq_iff rule.mcp_method "", eq_iff rule.mcp_method req.method)

names_iff :
    (tool : String) (names : List String)
    → (any (names_tool tool) names ≡ true)
      ↔ Any (λ name. (name ≡ "*") ⊎ (equal_fold name tool ≡ true)) names
names_iff tool [] = ((λ h. cc), λ h. absurd h)
names_iff tool (name ∷ names) = ground (arith, eq_iff name "*", names_iff tool names)

-- A rule's tool names admit a tool exactly if there are none, or one of them is "*" or equal to the
-- tool's name but for the case of letters.
pub matches_tool_name_iff :
    (rule : Rule) (req : Request) → (matches_tool_name rule req ≡ true) ↔ ToolMatches rule req
unfolding matches_tool_name
matches_tool_name_iff rule req = go rule.tool_names
  where
    go :
        (names : List String)
        → ((elim names [ [] ↦ true | name ∷ rest ↦ any (names_tool req.tool_name) (name ∷ rest) ])
            ≡ true)
          ↔ ((names ≡ [])
              ⊎ Any (λ name. (name ≡ "*") ⊎ (equal_fold name req.tool_name ≡ true)) names)
    go [] = ((λ _. inl refl), λ _. refl)
    go (name ∷ names) = ground (arith, names_iff req.tool_name (name ∷ names))

-- The conditions that the loop tests: a text, or an object with a "contains".
abbrev is_tested : Value → Bool
is_tested (text s) = true
is_tested (object cond) = is_some (lookup "contains" cond)
is_tested null = false
is_tested (bool b) = false
is_tested (number n) = false
is_tested (texts ss) = false
is_tested (list vs) = false

-- The part of an expectation that is tested.
abbrev pub tested : Fields → Fields
tested end = end
tested (field key cond rest) = if is_tested cond then field key cond (tested rest) else tested rest

untested_holds :
    (key : String) (cond : Value) (claims : Fields)
    → is_tested cond ≡ false
    → claim_holds key cond claims ≡ true
unfolding claim_holds
untested_holds key (object cond) claims h = ground arith
untested_holds key (text s) claims h = cc
untested_holds key null claims h = refl
untested_holds key (bool b) claims h = refl
untested_holds key (number n) claims h = refl
untested_holds key (texts ss) claims h = refl
untested_holds key (list vs) claims h = refl

-- Whatever the claims are, only the tested conditions decide: a condition that is a bool, a
-- number, a list, null or an object with no "contains" restricts nothing.
pub matches_claims-tested :
    (expected claims : Fields)
    → matches_claims expected claims ≡ matches_claims (tested expected) claims
unfolding matches_claims
matches_claims-tested end claims = refl
matches_claims-tested (field key cond rest) claims = elim (Bool-cases (is_tested cond)) [
  | inl yes' ↦
      rw yes' (ap (λ b. claim_holds key cond claims && b) (matches_claims-tested rest claims))
  | inr no' ↦ rw (no', untested_holds key cond claims no') (matches_claims-tested rest claims)
]
