-- ===== src/Controller/Sidecars.antt =====
-- pkg/controller/registry.go: the proxies that have registered with the controller. The mutex makes each
-- operation one step; `time.Now` is an argument.
use nullfield.Prelude.{
  ℕ, ℤ, ◌*◌, ◌≡◌, refl, ◌∙◌, arith, eq_refl, eq_iff, ◌≤◌, ◌+◌, suc, String, Bool, true, false, List,
  [], ◌∷◌, map, Option, none, some, if◌then◌else◌, ltb,
}
use nullfield.Prelude.Dict
use nullfield.Prelude.Dict.{Dict, lookup-put}
use nullfield.Times.{minute}

-- `SidecarInfo`
pub record SidecarInfo : Type 0 where
  pub target_name : String
  pub target_namespace : String
  pub pod_name : String
  pub version : String
  pub tool_count : ℤ
  pub rule_count : ℤ
  pub registered_at : ℕ
  pub last_heartbeat : ℕ

-- `SidecarRegistry`
pub record SidecarRegistry : Type 0 where
  pub sidecars : Dict SidecarInfo
  pub ttl : ℕ

-- `NewSidecarRegistry`
abbrev pub new_sidecar_registry : SidecarRegistry
new_sidecar_registry = record { sidecars = []; ttl = 5 * minute }

-- `Register`
unfoldable pub register : SidecarRegistry → SidecarInfo → ℕ → SidecarRegistry
register r info now = record r {
  sidecars =
      Dict.put info.pod_name (record info { registered_at = now; last_heartbeat = now }) r.sidecars;
}

unfoldable pub beat : SidecarRegistry → String → ℕ → Option SidecarInfo → SidecarRegistry × Bool
beat r pod now none = (r, false)
beat r pod now (some s) =
    (record r { sidecars = Dict.put pod (record s { last_heartbeat = now }) r.sidecars }, true)

-- `Heartbeat`
unfoldable pub heartbeat : SidecarRegistry → String → ℕ → SidecarRegistry × Bool
unfolding beat
heartbeat r pod now = beat r pod now (Dict.lookup pod r.sidecars)

-- `List`
abbrev pub list_sidecars : SidecarRegistry → List SidecarInfo
list_sidecars r = map (λ e. e.1) r.sidecars

-- The loop of `Sweep`: what stays, and how many went
unfoldable pub sweep_silent : ℕ → ℕ → Dict SidecarInfo → Dict SidecarInfo × ℕ
sweep_silent ttl now [] = ([], 0)
sweep_silent ttl now ((pod, s) ∷ m) =
    let rest = sweep_silent ttl now m in
    if ltb (s.last_heartbeat + ttl) now then (rest.0, suc rest.1) else ((pod, s) ∷ rest.0, rest.1)

-- `Sweep`
unfoldable pub sweep_sidecars : SidecarRegistry → ℕ → SidecarRegistry × ℕ
unfolding sweep_silent
sweep_sidecars r now =
    let swept = sweep_silent r.ttl now r.sidecars in (record r { sidecars = swept.0 }, swept.1)

sweep_silent-keeps :
    (ttl now : ℕ) (m : Dict SidecarInfo) (pod : String) (s : SidecarInfo)
    → Dict.lookup pod m ≡ some s
    → now ≤ s.last_heartbeat + ttl
    → Dict.lookup pod (sweep_silent ttl now m).0 ≡ some s
unfolding sweep_silent Dict.lookup
sweep_silent-keeps ttl now [] pod s e h = e
sweep_silent-keeps ttl now ((j, t) ∷ m) pod s e h =
    grind (arith, eq_iff j pod, sweep_silent-keeps ttl now m pod s)

-- A sweep keeps a proxy that registered within the time to live.
register-kept :
    (r : SidecarRegistry) (info : SidecarInfo) (now later : ℕ)
    → later ≤ now + r.ttl
    → Dict.lookup info.pod_name (sweep_sidecars (register r info now) later).0.sidecars
      ≡ some (record info { registered_at = now; last_heartbeat = now })
unfolding sweep_sidecars register
register-kept r info now later h =
    let s : SidecarInfo = record info { registered_at = now; last_heartbeat = now } in
    sweep_silent-keeps r.ttl later (Dict.put info.pod_name s r.sidecars) info.pod_name s
      (lookup-put info.pod_name info.pod_name s r.sidecars ∙ rw (eq_refl info.pod_name) refl) h
