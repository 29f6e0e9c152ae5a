-- ===== src/Registry/Loading.antt =====
-- What pkg/registry/registry.go knows after a file of tools was loaded.
use nullfield.Prelude.{
  ◌≡◌, refl, ◌∙◌, ap, String, List, [], ◌∷◌, Option, none, some, ◌==◌, arith, if◌then◌else◌,
  is_some, any,
}
use nullfield.Prelude.Dict.{lookup, lookup-put}
use nullfield.Api.{ToolRegistryEntry}
use nullfield.Registry.{Registry, new, is_registered, get, register, register_all, load}

-- The last of the entries that have the name.
unfoldable pub last_named : String → List ToolRegistryEntry → Option ToolRegistryEntry
last_named name [] = none
last_named name (t ∷ tools) =
    let later = last_named name tools in
    if is_some later then later else if t.name == name then some t else none

register_all-get :
    (name : String) (tools : List ToolRegistryEntry) (r : Registry)
    → get (register_all tools r) name
      ≡ (if is_some (last_named name tools) then last_named name tools else get r name)
unfolding register_all register get last_named
register_all-get name [] r = refl
register_all-get name (t ∷ tools) r =
    register_all-get name tools (register r t) ∙ ground (arith, lookup-put t.name name t r.tools)

is_some-last_named :
    (name : String) (tools : List ToolRegistryEntry)
    → is_some (last_named name tools) ≡ any (λ t. t.name == name) tools
unfolding last_named
is_some-last_named name [] = refl
is_some-last_named name (t ∷ tools) = ground (arith, is_some-last_named name tools)

get-lookup : (r : Registry) (name : String) → lookup name r.tools ≡ get r name
unfolding get
get-lookup r name = refl

get-new : (name : String) → get new name ≡ none
unfolding get new lookup
get-new name = refl

-- After a load, the registry knows of a name the last entry of the file that has it, and has the
-- name registered exactly if some entry of the file has it; what was registered before is gone.
pub load-get :
    (tools : List ToolRegistryEntry) (before : Registry) (name : String)
    → (get (load tools before) name ≡ last_named name tools)
      × (is_registered (load tools before) name ≡ any (λ t. t.name == name) tools)
unfolding load is_registered
load-get tools before name =
    let found : get (register_all tools new) name ≡ last_named name tools =
      register_all-get name tools new ∙ rw (get-new name) (or_none (last_named name tools)) in
    (found, of_get (register_all tools new) found ∙ is_some-last_named name tools)
  where
    or_none : (o : Option ToolRegistryEntry) → (if is_some o then o else none) ≡ o
    or_none none = refl
    or_none (some t) = refl

    of_get :
        (r : Registry) {o : Option ToolRegistryEntry}
        → get r name ≡ o
        → is_some (lookup name r.tools) ≡ is_some o
    of_get r e = ap is_some (get-lookup r name) ∙ ap is_some e
