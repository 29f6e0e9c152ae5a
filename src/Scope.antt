-- ===== src/Scope.antt =====
-- pkg/scope/modifier.go: what SCOPE strips from a call and from its response. A map is the list of its
-- fields, and the loops over a map, whose order Go leaves open, take its keys in order. The packages
-- regexp, encoding/json and strings are parameters.
pub mod Arguments
use Prim.Native.String
use Prim.Native.Nat.{Ordering}
use nullfield.Prelude.{
  ℕ, zero, suc, ◌+◌, String, Bool, true, false, not, ◌&&◌, ◌||◌, List, [], ◌∷◌, ◌++◌, Option, none,
  some, ◌==◌, if◌then◌else◌, ◌+++◌, any, is_some, is_prefix, ltb, Result, ok, err, length,
}
use nullfield.Value.{
  Value, null, bool, number, text, texts, list, object, Fields, end, field, lookup,
}
use nullfield.Regexp.{Regexp}
use nullfield.Api.{ScopeRequestConfig, ScopeResponseConfig}

-- `Modifications`; the count of what is redacted is a result of its own.
pub record Modifications : Type 0 where
  pub stripped_args : List String
  pub injected_args : List String

-- `_redirectArgNames`
abbrev pub redirect_arg_names : List String
redirect_arg_names =
    "url" ∷ "uri" ∷ "redirect" ∷ "location" ∷ "target" ∷ "cdn_url" ∷ "war_url" ∷ "webhook_url"
    ∷ "callback_url" ∷ []

-- `_isRedirectLike`
abbrev pub is_redirect_like : String → Bool
is_redirect_like v = is_prefix "http://" v || is_prefix "https://" v

-- `result[key] = val`
unfoldable pub put : String → Value → Fields → Fields
put k v end = field k v end
put k v (field i w fs) =
    let rest = put k v fs in
    if k == i then field k v fs else elim (String.compare k i) [
      | Ordering.lt ↦ field k v (field i w fs)
      | other ↦ field i w rest
    ]

-- `delete(result, key)` for the keys that pass the test
unfoldable pub remove_keys : (String → Bool) → Fields → Fields
remove_keys p end = end
remove_keys p (field k v fs) = let rest = remove_keys p fs in if p k then rest else field k v rest

unfoldable pub keys_if : (String → Bool) → Fields → List String
keys_if p end = []
keys_if p (field k v fs) = let rest = keys_if p fs in if p k then k ∷ rest else rest

-- The first loop of `ModifyRequest`
unfoldable pub strip : List String → Fields → Fields × List String
unfolding remove_keys
strip [] fs = (fs, [])
strip (k ∷ ks) fs =
    let rest = strip ks (if is_some (lookup k fs) then remove_keys (λ j. j == k) fs else fs) in
    (rest.0, if is_some (lookup k fs) then k ∷ rest.1 else rest.1)

-- The second loop of `ModifyRequest`
unfoldable pub inject : Fields → Fields → Fields
unfolding put
inject end fs = fs
inject (field k v rest) fs = put k v (inject rest fs)

-- The test of the third loop of `ModifyRequest`
unfoldable pub is_redirect : (String → String) → String → Option Value → Bool
unfolding is_prefix
is_redirect to_lower k (some (text s)) =
    any (λ n. n == to_lower k) redirect_arg_names && is_redirect_like s
is_redirect to_lower k _ = false

-- `ModifyRequest` from the copy of the arguments on
unfoldable pub modify_fields :
    (String → String) → Fields → ScopeRequestConfig → Fields × Modifications
unfolding strip inject is_redirect keys_if remove_keys
modify_fields to_lower args cfg =
    let stripped = strip cfg.strip_arguments args in
    let injected = inject cfg.inject_arguments stripped.0 in
    let blocked =
      λ (k : String). cfg.block_redirects && is_redirect to_lower k (lookup k injected) in
    (
      remove_keys blocked injected,
      record {
        stripped_args = stripped.1 ++ keys_if blocked injected;
        injected_args = keys_if (λ _. true) cfg.inject_arguments;
      },
    )

abbrev pub unmodified : Modifications
unmodified = record { stripped_args = []; injected_args = [] }

-- `ModifyRequest`
unfoldable pub modify_request :
    (String → String) → Option Fields → Option ScopeRequestConfig → Option Fields × Modifications
unfolding modify_fields
modify_request to_lower none cfg = (none, unmodified)
modify_request to_lower (some args) none = (some args, unmodified)
modify_request to_lower (some args) (some cfg) =
    (some (modify_fields to_lower args cfg).0, (modify_fields to_lower args cfg).1)

module _ {Re : Type 0} (re : Regexp Re) where
  unfoldable pub redact_with : Option Re → String → String → String × ℕ
  redact_with none replacement body = (body, 0)
  redact_with (some r) replacement body =
      let count = length (re.find_all r body none) in
      if ltb 0 count then (re.replace_all r body replacement, count) else (body, 0)

  -- A loop of `ModifyResponse`, where `before` and `after` make the expression of a pattern
  unfoldable pub redact_each : String → String → List String → String → String → String × ℕ
  unfolding redact_with
  redact_each before after [] replacement body = (body, 0)
  redact_each before after (p ∷ patterns) replacement body =
      let first = redact_with (re.compile (before +++ p +++ after)) replacement body in
      let rest = redact_each before after patterns replacement first.0 in (rest.0, first.1 + rest.1)

  -- The end of the expression that a pattern makes in the first loop
  abbrev pub assignment : String
  assignment = "\\s*[\"']?\\s*[:=]\\s*[\"']?[^\"',}\\s]+[\"']?"

  -- `ModifyResponse` with a configuration
  unfoldable pub modify_response : String → ScopeResponseConfig → String × ℕ
  unfolding redact_each
  modify_response body cfg =
      let replacement =
        if cfg.redact_replacement == "" then "[REDACTED]" else cfg.redact_replacement in
      let first = redact_each "(?i)" assignment cfg.redact_patterns replacement body in
      if ltb 0 first.1 then first else redact_each "(?i)" "" cfg.redact_patterns replacement first.0

-- `json.Unmarshal` into a map, and `json.Marshal` of one
pub record JsonMap : Type 0 where
  pub unmarshal : String → Result Fields
  pub marshal : Fields → Result String

-- A nil map is written as null.
abbrev pub json_arguments : Option Fields → Value
json_arguments none = null
json_arguments (some fs) = object fs

unfoldable pub rebuild_with :
    JsonMap → String → Option Fields → Fields → Option Value → Result String
unfolding put
rebuild_with json body args req (some (object params)) =
    json.marshal (put "params" (object (put "arguments" (json_arguments args) params)) req)
rebuild_with json body args req _ = ok body

-- `RebuildRequestBody`, without the body that it returns with an error
unfoldable pub rebuild_request_body : JsonMap → String → Option Fields → Result String
unfolding rebuild_with
rebuild_request_body json body args = elim (json.unmarshal body) [
  | err e ↦ err e
  | ok req ↦ rebuild_with json body args req (lookup "params" req)
]
