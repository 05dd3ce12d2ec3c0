-- ===== src/Stream/Refresh.antt =====
-- What `Refresh` of stream/stream.go returns, against the cache of the path.
use ooo.Base.{
  false, [], Option, none, some, Text, text_eq, text_eq_iff, text_eq_refl, ◌≡◌, refl, if◌then◌else◌,
  arith, ℤ, is_empty,
}
use ooo.Stream.{
  Stream, Cache, find_pool, set_cache, set_pool_cache, get_cache_version, refresh, raw_data,
}
use ooo.Stream.Pools.{find_pool-append, find_pool-at_pool}

-- The cache of a key, if it has a pool.
abbrev pub cache_of : Text → Stream → Option Cache
cache_of key s = elim (find_pool key s.pools) [ none ↦ none | some p ↦ some p.cache ]

raw_data-not_empty : (get : Option Text) → is_empty (raw_data get) ≡ false
raw_data-not_empty none = refl
raw_data-not_empty (some bytes) = ground arith

set_cache-cache_of :
    (key j body : Text) (now : ℤ) (s : Stream)
    → cache_of j (set_cache key body now s)
      ≡ (if text_eq key j then some (record { version = now; body = body }) else cache_of j s)
unfolding set_cache set_pool_cache
set_cache-cache_of key j body now s = ground (
  arith,
  text_eq_iff key j,
  find_pool-append j s.pools
      (record { key = key; cache = record { version = now; body = body }; connections = [] }),
  find_pool-at_pool key j (set_pool_cache body now) s.pools (λ p. refl),
)

cache_of-version :
    (path : Text) (s : Stream)
    → get_cache_version path s ≡ elim (cache_of path s) [
      | none ↦ none
      | some c ↦ if is_empty c.body then none else some c.version
    ]
unfolding get_cache_version
cache_of-version path s = ground arith

pub refresh-body :
    (path : Text) (get : Option Text) (now : ℤ) (s : Stream)
    → (refresh path get now s).0.body ≡ raw_data get
unfolding refresh
refresh-body path get now s = ground arith

-- `Refresh` returns the data of the read, and the version that the cache of the path has then.
-- Without cached data the cache takes the data, at the reading of the clock; with cached data it
-- stays as it is, so that the data that is returned may be newer than what the cache holds.
pub refresh_lem :
    (path : Text) (get : Option Text) (now : ℤ) (s : Stream)
    → ((refresh path get now s).0.body ≡ raw_data get)
      × (get_cache_version path (refresh path get now s).1
          ≡ some (refresh path get now s).0.version)
      × (cache_of path (refresh path get now s).1 ≡ elim (get_cache_version path s) [
        | none ↦ some (record { version = now; body = raw_data get })
        | some _ ↦ cache_of path s
      ])
unfolding refresh
refresh_lem path get now s =
    let cached = set_cache-cache_of path path (raw_data get) now s in
    let version = cache_of-version path (set_cache path (raw_data get) now s) in
    (
      refresh-body path get now s,
      ground (arith, cached, version, text_eq_refl path, raw_data-not_empty get),
      ground (arith, cached, text_eq_refl path),
    )
