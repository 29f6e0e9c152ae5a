-- ===== src/Policy/Guards/Meaning.antt =====
-- What the identity and delegation guards of pkg/policy/rules.go establish about a caller's claims.
use nullfield.Prelude.{
  ℕ, zero, suc, ap, ◌≤◌, ◌≡◌, refl, sym, ◌∙◌, ◌↔◌, inl, inr, String, true, Option, none, some, ◌==◌,
  arith, ◌⊎◌, ℤ, pos, negsuc, Bool-cases, if◌then◌else◌, ltb, ◌≢◌, Option-cases,
}
use mathlib.Core.Path.{subst}
use mathlib.Core.Option.{some-injective}
use nullfield.Value.{
  Value, null, bool, number, text, texts, list, object, Fields, lookup, end, field,
}
use nullfield.Api.{Rule, RuleIdentityGuard, RuleDelegationGuard}
use nullfield.Policy.Engine.{Request}
use nullfield.Policy.Guards.Audience.{Narrowed, audience_narrows_iff}
use nullfield.Policy.Guards.{
  act_chain_depth, act_depth, parent_act, identity_guards, delegation_guards, claims_guards,
  claims_of_request, evaluate_identity_guards, depth_of_request, evaluate_delegation_guards,
}

-- `Chain n claims`: the claims hold `n` nested "act" objects, and the innermost holds none.
pub data Chain : ℕ → Fields → Type 0 where
  direct : {claims : Fields} → parent_act claims ≡ none → Chain 0 claims
  via :
      {n : ℕ} {claims act : Fields}
      → parent_act claims ≡ some act
      → Chain n act
      → Chain (suc n) claims

Chain-congr :
    {n : ℕ} {claims other : Fields}
    → parent_act other ≡ parent_act claims
    → Chain n claims
    → Chain n other
Chain-congr e (direct p) = direct (e ∙ p)
Chain-congr e (via p c) = via (e ∙ p) c

parent_act-field :
    (k : String) (v : Value) (claims : Fields)
    → parent_act (field k v claims)
      ≡ (if k == "act" then parent_act (field "act" v end) else parent_act claims)
unfolding parent_act lookup
parent_act-field k v claims = ground arith

mutual
  unfolding act_chain_depth parent_act lookup

  depth_Chain : (claims : Fields) → Chain (act_chain_depth claims) claims
  depth_Chain end = direct refl
  depth_Chain (field k v claims) = elim (Bool-cases (k == "act")) [
    | inl hit ↦
        rw hit (value_Chain v (field k v claims) (rw (parent_act-field k v claims, hit) refl))
    | inr miss ↦
        rw miss (Chain-congr (rw (parent_act-field k v claims, miss) refl) (depth_Chain claims))
  ]

  value_Chain :
      (v : Value) (claims : Fields)
      → parent_act claims ≡ parent_act (field "act" v end)
      → Chain (act_depth v) claims
  value_Chain (object act) claims e = via e (depth_Chain act)
  value_Chain null claims e = direct e
  value_Chain (bool b) claims e = direct e
  value_Chain (number n) claims e = direct e
  value_Chain (text s) claims e = direct e
  value_Chain (texts ss) claims e = direct e
  value_Chain (list vs) claims e = direct e

-- The depth that the loop counts is the length of the chain of "act" claims.
pub act_chain_depth-Chain : (claims : Fields) → Chain (act_chain_depth claims) claims
act_chain_depth-Chain claims = depth_Chain claims

act_chain_depth-pos :
    (claims : Fields) → (ltb 0 (act_chain_depth claims) ≡ true) ↔ (parent_act claims ≢ none)
act_chain_depth-pos claims = go (act_chain_depth-Chain claims)
  where
    go : {n : ℕ} → Chain n claims → (ltb 0 n ≡ true) ↔ (parent_act claims ≢ none)
    go (direct p) = ((λ h. cc), λ h. absurd (h p))
    go (via p c) = ((λ _ e. cc), λ _. ground arith)

-- A delegated token where one is demanded, and audiences that narrow where they must.
pub record ClaimsHold (g : RuleIdentityGuard) (claims : Fields) : Type 0 where
  pub delegated : g.require_act_chain ≡ true → parent_act claims ≢ none
  pub narrowed :
      g.audience_must_narrow ≡ true
      → (parent : Fields) → parent_act claims ≡ some parent
      → Narrowed claims parent

claims_guards_iff :
    (g : RuleIdentityGuard) (claims : Fields)
    → ((claims_guards g claims).0 ≡ true) ↔ ClaimsHold g claims
unfolding claims_guards
claims_guards_iff g claims = (
  (λ h. record {
    delegated = λ asked. (act_chain_depth-pos claims).0 (ground arith);
    narrowed = λ asked parent e. (audience_narrows_iff claims parent).0 (ground arith);
  }),
  (λ c. elim (Option-cases (parent_act claims)) [
    | inl missing ↦ ground (arith, c.delegated, act_chain_depth-pos claims)
    | inr (parent, e) ↦ ground (
      arith,
      c.delegated,
      act_chain_depth-pos claims,
      λ (asked : g.audience_must_narrow ≡ true). c.narrowed asked parent e,
      audience_narrows_iff claims parent,
    )
  ]),
)

-- A rule with identity guards wants claims that meet them.
abbrev pub IdentityGuardsHold : Rule → Request → Type 0
IdentityGuardsHold rule req =
    (g : RuleIdentityGuard)
    → rule.identity ≡ some g
    → (claims : Fields) × (claims_of_request req ≡ some claims) × ClaimsHold g claims

Chain-unique : {m n : ℕ} {claims : Fields} → Chain m claims → Chain n claims → m ≡ n
Chain-unique (direct p) (direct q) = refl
Chain-unique (direct p) (via q d) = absurd (ground arith)
Chain-unique (via p c) (direct q) = absurd (ground arith)
Chain-unique {claims = claims} (via {n = m} p c) (via {n = n} {act = act} q d) =
    ap suc (Chain-unique (subst (Chain m) (some-injective _ act (sym p ∙ q)) c) d)

-- A rule with a positive depth limit wants, of a caller with claims, a chain of nested "act" objects
-- in them that is no longer than that.
abbrev pub DelegationHolds : Rule → Request → Type 0
DelegationHolds rule req =
    (g : RuleDelegationGuard) (limit depth : ℕ) (claims : Fields)
    → rule.delegation ≡ some g
    → g.max_depth ≡ pos (suc limit)
    → claims_of_request req ≡ some claims
    → Chain depth claims
    → depth ≤ suc limit

depth_of_request_cases :
    (req : Request)
    → ((claims_of_request req ≡ none) × (depth_of_request req ≡ 0))
      ⊎ ((claims : Fields) × (claims_of_request req ≡ some claims)
          × Chain (depth_of_request req) claims)
unfolding depth_of_request
depth_of_request_cases req = elim (Option-cases (claims_of_request req)) [
  | inl e ↦ inl (e, rw (e, depth_of_request) refl)
  | inr (claims, e) ↦ inr (claims, e, rw (e, depth_of_request) (act_chain_depth-Chain claims))
]

identity_guards_iff :
    (guards : Option RuleIdentityGuard) (claims : Option Fields)
    → ((identity_guards guards claims).0 ≡ true) ↔ (
        (g : RuleIdentityGuard)
        → guards ≡ some g
        → (fs : Fields) × (claims ≡ some fs) × ClaimsHold g fs)
unfolding identity_guards
identity_guards_iff none claims = ((λ _ g e. cc), λ _. refl)
identity_guards_iff (some g) none = ((λ h. cc), λ h. let (fs, e, _) = h g refl in cc)
identity_guards_iff (some g) (some fs) = (
  (λ h g' e. (
    fs,
    refl,
    subst (λ x. ClaimsHold x fs) (some-injective _ _ e) ((claims_guards_iff g fs).0 h),
  )),
  λ h.
      let (fs', e, held) = h g refl in
      (claims_guards_iff g fs).1 (subst (ClaimsHold g) (sym (some-injective _ _ e)) held),
)

delegation_guards_iff :
    (guards : Option RuleDelegationGuard) (depth : ℕ)
    → ((delegation_guards guards depth).0 ≡ true) ↔ (
        (g : RuleDelegationGuard) (n : ℕ)
        → guards ≡ some g
        → g.max_depth ≡ pos (suc n)
        → depth ≤ suc n)
unfolding delegation_guards
delegation_guards_iff none depth = ((λ _ g n e. cc), λ _. refl)
delegation_guards_iff (some g) depth = (
  (λ h g' n e p. ground (arith, ap (λ x. x.max_depth) (some-injective g g' e))),
  λ h. positive g.max_depth refl h,
)
  where
    positive :
        (z : ℤ)
        → g.max_depth ≡ z
        → ((g' : RuleDelegationGuard) (n : ℕ)
            → some g ≡ some g'
            → g'.max_depth ≡ pos (suc n)
            → depth ≤ suc n)
        → (delegation_guards (some g) depth).0 ≡ true
    positive (pos zero) e h = ground arith
    positive (pos (suc n)) e h = ground (arith, h g n refl e)
    positive (negsuc n) e h = ground arith

-- The identity guard of a rule passes exactly if the rule has none, or the caller has claims that
-- meet it: an "act" object where a chain is required; and where the audience is to narrow, no
-- audience beyond those of the outermost "act" object, if there is one. The objects nested in that
-- one are not compared.
pub evaluate_identity_guards_iff :
    (rule : Rule) (req : Request)
    → ((evaluate_identity_guards rule req).0 ≡ true) ↔ IdentityGuardsHold rule req
unfolding evaluate_identity_guards
evaluate_identity_guards_iff rule req = identity_guards_iff rule.identity (claims_of_request req)

-- The delegation guard of a rule passes exactly if the rule has none, or one whose depth is not
-- positive, or the caller has no claims, or no more "act" objects are nested in them than the depth.
pub evaluate_delegation_guards_iff :
    (rule : Rule) (req : Request)
    → ((evaluate_delegation_guards rule req).0 ≡ true) ↔ DelegationHolds rule req
unfolding evaluate_delegation_guards
evaluate_delegation_guards_iff rule req =
    let guarded = delegation_guards_iff rule.delegation (depth_of_request req) in
    elim (depth_of_request_cases req) [
      | inl (anonymous, shallow) ↦ (
        λ h g limit depth claims is positive known c. absurd (ground arith),
        λ h. guarded.1 (λ g n is positive. omega (arith, shallow)),
      )
      | inr (claims, known, chain) ↦ (
        λ h g limit depth claims' is positive known' c.
            subst (λ d. d ≤ suc limit)
              (Chain-unique chain
                (subst (Chain depth) (some-injective claims' claims (sym known' ∙ known)) c))
              (guarded.0 h g limit is positive),
        λ h.
            guarded.1
              (λ g n is positive. h g n (depth_of_request req) claims is positive known chain),
      )
    ]
