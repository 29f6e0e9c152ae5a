-- ===== src/ExtAuthz/Target.antt =====
-- pkg/extauthz/server.go: `verifyTarget`, which checks Host against the Service that the call is routed
-- to. The resolver of addresses is a function; one that times out answers no names.
use nullfield.Prelude.{
  String, Bool, false, ◌||◌, List, [], ◌∷◌, Option, none, some, ◌==◌, if◌then◌else◌, ◌+++◌,
  is_prefix, split_on, strip_prefix, without_last, or_else,
}
use nullfield.Operations.{Library}
use nullfield.Gates.{Refusal}
use nullfield.ExtAuthz.Translate.{Translated}

-- `hostOf`
unfoldable pub host_of : Library → String → String
unfolding strip_prefix without_last
host_of lib target =
    let host = or_else (lib.split_host_port target) target in
    let opened = or_else (strip_prefix "[" host) host in
    let bare = or_else (without_last b']' opened) opened in
    let lower = lib.to_lower bare in or_else (without_last b'.' lower) lower

-- `isService`
unfoldable pub is_service_labels : List String → Bool
is_service_labels (name ∷ ns ∷ svc ∷ domain ∷ rest) = svc == "svc"
is_service_labels _ = false

unfoldable pub is_service : String → Bool
unfolding is_service_labels split_on
is_service name = is_service_labels (split_on b'.' name)

-- `slices.DeleteFunc` in `verifyTarget`
unfoldable pub services : Library → List String → List String
unfolding host_of is_service
services lib [] = []
services lib (n ∷ names) =
    let rest = services lib names in if is_service (host_of lib n) then n ∷ rest else rest

-- The loop of `verifyTarget`: the Service that the host names
unfoldable pub named_service : Library → String → String → List String → Option String
unfolding host_of is_prefix
named_service lib host destination [] = none
named_service lib host destination (n ∷ names) =
    let service = host_of lib n in
    let rest = named_service lib host destination names in
    if host == destination || host == service || is_prefix (host +++ ".") service
    then some service
    else rest

abbrev pub target_refusal : Library → Translated → String → Refusal
target_refusal lib t service = record {
  gate = "target";
  reason_class = "target_mismatch";
  reason =
      "Host "
      +++ lib.quote t.policy.target
      +++ " does not name "
      +++ service
      +++ ", where the call is routed";
}

unfoldable pub match_service : Library → Translated → List String → Translated × Option Refusal
unfolding named_service
match_service lib t [] = (t, none)
match_service lib t (n ∷ names) =
    elim (named_service lib (host_of lib t.policy.target) t.destination (n ∷ names)) [
      | some service ↦ (record t { service = service }, none)
      | none ↦ (t, some (target_refusal lib t (host_of lib n)))
    ]

-- `verifyTarget`
unfoldable pub verify_target :
    Option (String → List String) → Library → Translated → Translated × Option Refusal
unfolding match_service services
verify_target none lib t = (t, none)
verify_target (some lookup) lib t =
    if t.destination == ""
    then (t, none)
    else match_service lib t (services lib (lookup t.destination))
