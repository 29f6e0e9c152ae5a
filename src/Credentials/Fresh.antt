-- ===== src/Credentials/Fresh.antt =====
-- How old a secret can be that the cache of pkg/credentials/cache.go gives.
use nullfield.Prelude.{
  ℕ, ◌≡◌, refl, ap, ◌⊎◌, inl, inr, String, true, some, eq_refl, arith, Bool-cases, Option-cases,
  Result, ok, err,
}
use nullfield.Credentials.{CacheEntry, CachedProvider, is_fresh, fetch_new, fetch_cached}

-- The value is the entry's, which is not older than the cache's time to live.
pub record Cached (p : CachedProvider) (ref : String) (val : String) (now : ℕ) : Type 0 where
  pub entry : CacheEntry
  pub kept : p.cache ref ≡ some entry
  pub fresh : is_fresh p.ttl now entry.fetched ≡ true
  pub same : entry.value ≡ val

ok-injective : {a b : String} → ok a ≡ ok b → a ≡ b
ok-injective e = cc

err-ne-ok : {a e : String} → ◌≡◌ {A = Result String} (err e) (ok a) → ⊥
err-ne-ok e = ground arith

fetch_new-ok :
    (p : CachedProvider) (ref val : String) (inner : Result String) (later : ℕ)
    → (fetch_new p ref inner later).1 ≡ ok val
    → (inner ≡ ok val)
      × ((fetch_new p ref inner later).0.cache ref ≡ some (record { value = val; fetched = later }))
unfolding fetch_new
fetch_new-ok p ref val (err e) later h = absurd (err-ne-ok h)
fetch_new-ok p ref val (ok v) later h =
    (h, rw (eq_refl ref) (ap (λ x. some (record { value = x; fetched = later })) (ok-injective h)))

-- A secret that the cache gives is either that of an entry that is fresh, which the call leaves as it
-- was, or the one that the provider behind it gave now, which is then the entry; so an error of the
-- provider is hidden by a fresh entry only.
pub fetch_cached_lem :
    (p : CachedProvider) (ref val : String) (inner : Result String) (now later : ℕ)
    → (fetch_cached p ref inner now later).1 ≡ ok val
    → (Cached p ref val now × ((fetch_cached p ref inner now later).0 ≡ p))
      ⊎ ((inner ≡ ok val)
          × ((fetch_cached p ref inner now later).0.cache ref
              ≡ some (record { value = val; fetched = later })))
unfolding fetch_cached
fetch_cached_lem p ref val inner now later h = elim (Option-cases (p.cache ref)) [
  | inl missing ↦
      rw (missing, fetch_cached)
        (inr (fetch_new-ok p ref val inner later (rw (missing, fetch_cached) at h)))
  | inr (entry, is) ↦ elim (Bool-cases (is_fresh p.ttl now entry.fetched)) [
    | inl fresh ↦
        rw (is, fetch_cached, fresh)
          (inl (
            record {
              entry = entry;
              kept = is;
              fresh = fresh;
              same = ok-injective (rw (is, fetch_cached, fresh) at h);
            },
            refl,
          ))
    | inr stale ↦
        rw (is, fetch_cached, stale)
          (inr (fetch_new-ok p ref val inner later (rw (is, fetch_cached, stale) at h)))
  ]
]
