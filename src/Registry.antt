-- ===== src/Registry.antt =====
-- pkg/registry/registry.go: the tools that are approved. Reading and parsing the file of
-- `LoadFromFile` is not modelled; the entries that it holds are the argument.
pub mod Loading
pub mod Lifecycle
use nullfield.Prelude.{String, Bool, List, [], ◌∷◌, map, Option, is_some}
use nullfield.Prelude.Dict
use nullfield.Prelude.Dict.{Dict}
use nullfield.Api.{ToolRegistryEntry}

-- `Registry`
pub record Registry : Type 0 where
  pub tools : Dict ToolRegistryEntry

unfoldable pub new : Registry
new = record { tools = [] }

-- `IsRegistered`
unfoldable pub is_registered : Registry → String → Bool
is_registered r name = is_some (Dict.lookup name r.tools)

-- `Get`
unfoldable pub get : Registry → String → Option ToolRegistryEntry
get r name = Dict.lookup name r.tools

-- `All`
abbrev pub entries : Registry → List ToolRegistryEntry
entries r = map (λ t. t.1) r.tools

-- `Register`
unfoldable pub register : Registry → ToolRegistryEntry → Registry
register r entry = record { tools = Dict.put entry.name entry r.tools }

unfoldable pub register_all : List ToolRegistryEntry → Registry → Registry
register_all [] r = r
register_all (t ∷ tools) r = register_all tools (register r t)

-- `LoadFromFile`, of a file that was read and parsed
unfoldable pub load : List ToolRegistryEntry → Registry → Registry
load tools r = register_all tools new
