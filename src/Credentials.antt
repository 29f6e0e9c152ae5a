-- ===== src/Credentials.antt =====
-- pkg/credentials: provider.go, where secrets come from, and cache.go, which keeps them for a while. The
-- environment is a function of its names, and what a provider behind the cache answers is an argument;
-- `time.Now` is read anew for the look and for the entry.
pub mod Fresh
use nullfield.Prelude.{
  ℕ, String, Bool, true, false, not, Option, none, some, ◌==◌, if◌then◌else◌, ◌+++◌, is_some, ltb,
  leb, ◌+◌, ℤ, pos, negsuc, suc, Map, empty, insert, sweep_if, Result, ok, err,
}

-- `cacheEntry`
pub record CacheEntry : Type 0 where
  pub value : String
  pub fetched : ℕ

-- `CachedProvider`, without the provider behind it
pub record CachedProvider : Type 0 where
  pub ttl : ℤ
  pub cache : Map CacheEntry

-- `NewCachedProvider`
abbrev pub new_cached_provider : ℤ → CachedProvider
new_cached_provider ttl = record { ttl = ttl; cache = empty }

-- `time.Since(fetched) < ttl`
abbrev pub is_fresh : ℤ → ℕ → ℕ → Bool
is_fresh (pos ttl) now fetched = ltb now (fetched + ttl)
is_fresh (negsuc n) now fetched = ltb (now + suc n) fetched

unfoldable pub fetch_new :
    CachedProvider → String → Result String → ℕ → CachedProvider × Result String
fetch_new p ref (err e) now = (p, err e)
fetch_new p ref (ok val) now =
    (record p { cache = insert ref (record { value = val; fetched = now }) p.cache }, ok val)

-- `Fetch` of the cache
unfoldable pub fetch_cached :
    CachedProvider → String → Result String → ℕ → ℕ → CachedProvider × Result String
unfolding fetch_new
fetch_cached p ref inner now later = elim (p.cache ref) [
  | none ↦ fetch_new p ref inner later
  | some entry ↦
      if is_fresh p.ttl now entry.fetched then (p, ok entry.value) else fetch_new p ref inner later
]

-- `Sweep`
unfoldable pub sweep_cached : CachedProvider → ℕ → CachedProvider
sweep_cached p now = record p {
  cache = sweep_if (λ entry. not (is_fresh p.ttl now entry.fetched)) p.cache;
}

-- A `Provider`
abbrev pub Provider : Type 0
Provider = String → Result String

module _ (quote : String → String) where
  -- `Fetch` of an `EnvProvider`
  unfoldable pub fetch_env : (String → String) → Provider
  fetch_env getenv ref =
      if getenv ref == ""
      then err ("env credential " +++ quote ref +++ " not found")
      else ok (getenv ref)

  -- `Fetch` of a `StaticProvider`
  unfoldable pub fetch_static : Map String → Provider
  fetch_static secrets ref = elim (secrets ref) [
    | none ↦ err ("static credential " +++ quote ref +++ " not found")
    | some val ↦ ok val
  ]

  -- `FetchFrom` of a `MultiProvider`, which is the map of its providers
  unfoldable pub fetch_from : Map Provider → String → String → Result String
  fetch_from providers name ref =
      let backend = if name == "" then "env" else name in
      elim (providers backend) [
        | none ↦ err ("unknown credential provider " +++ quote backend)
        | some provider ↦ provider ref
      ]

  -- `Fetch` of a `MultiProvider`
  abbrev pub fetch_any : Map Provider → String → Result String
  fetch_any providers ref = fetch_from providers "" ref

-- `NewMultiProvider`, `Register` and `HasProvider`
abbrev pub new_multi_provider : Map Provider
new_multi_provider = empty

abbrev pub register_provider : Map Provider → String → Provider → Map Provider
register_provider providers name provider = insert name provider providers

abbrev pub has_provider : Map Provider → String → Bool
has_provider providers name = is_some (providers name)
