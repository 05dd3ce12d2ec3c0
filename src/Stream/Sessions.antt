-- ===== src/Stream/Sessions.antt =====
-- The life of subscriptions in stream/stream.go: who is subscribed to what, through any sequence of
-- the calls that change a stream.
use ooo.Base.{
  ℕ, Bool, true, false, not, List, [], ◌∷◌, ◌++◌, Option, none, some, Text, text_eq, text_eq_iff,
  ◌≡◌, refl, ◌∙◌, sym, subst, ap, if◌then◌else◌, arith, Bool-cases, Option-cases, inl, inr, ℤ,
  select, ◌==◌,
}
use ooo.Stream.{
  Stream, Pool, Differ, find_pool, at_pool, close, set_cache, set_pool_cache, get_cache_version,
  raw_data, refresh, pool_update, broadcast_loop, broadcast,
}
use ooo.Stream.Pools.{find_pool-append, find_pool-at_pool, find_pool-map, connections_of, has_pool}
use ooo.Stream.Broadcast.{broadcast_lem, pools_after}

abbrev pub without : ℕ → List ℕ → List ℕ
without client = select (λ c. not (c == client))

-- `Close` of a connection whose key has a pool: no panic, and only that pool loses the connection.
pub close-connections :
    (key : Text) (client : ℕ) (s : Stream)
    → has_pool key s ≡ true
    → (s' : Stream) × (close key client s ≡ some s')
      × ((j : Text)
          → connections_of j s'
            ≡ (if text_eq key j then without client (connections_of j s) else connections_of j s))
      × ((j : Text) → has_pool j s' ≡ has_pool j s)
unfolding close
close-connections key client s h = elim (Option-cases (find_pool key s.pools)) [
  | inl e ↦ absurd (ground arith)
  | inr (p, e) ↦
      let leave : Pool → Pool = λ p. record p { connections = without client p.connections } in
      (
        record s { pools = at_pool key leave s.pools; closed = s.closed ++ client ∷ [] },
        ground arith,
        λ j. ground (arith, find_pool-at_pool key j leave s.pools (λ p. refl)),
        λ j. ground (arith, find_pool-at_pool key j leave s.pools (λ p. refl)),
      )
]

-- What changes the caches alone.
module _ (key body : Text) (now : ℤ) (s : Stream) where
  pub set_cache-connections :
      (j : Text) → connections_of j (set_cache key body now s) ≡ connections_of j s
  unfolding set_cache set_pool_cache
  set_cache-connections j = ground (
    arith,
    text_eq_iff key j,
    find_pool-append j s.pools
        (record { key = key; cache = record { version = now; body = body }; connections = [] }),
    find_pool-at_pool key j (set_pool_cache body now) s.pools (λ p. refl),
  )

  pub set_cache-has_pool :
      (j : Text) → has_pool j s ≡ true → has_pool j (set_cache key body now s) ≡ true
  unfolding set_cache set_pool_cache
  set_cache-has_pool j h = ground (
    arith,
    text_eq_iff key j,
    find_pool-append j s.pools
        (record { key = key; cache = record { version = now; body = body }; connections = [] }),
    find_pool-at_pool key j (set_pool_cache body now) s.pools (λ p. refl),
  )

refresh-state :
    (path : Text) (get : Option Text) (now : ℤ) (s : Stream)
    → (refresh path get now s).1
      ≡ elim (get_cache_version path s) [ none ↦ set_cache path (raw_data get) now s | some _ ↦ s ]
unfolding refresh
refresh-state path get now s = ground arith

module _ (path : Text) (get : Option Text) (now : ℤ) (s : Stream) (j : Text) where
  pub refresh-connections : connections_of j (refresh path get now s).1 ≡ connections_of j s
  refresh-connections =
      ap (connections_of j) (refresh-state path get now s)
      ∙ elim (Option-cases (get_cache_version path s)) [
        | inl e ↦ rw e (set_cache-connections path (raw_data get) now s j)
        | inr (v, e) ↦ rw e
      ]

  pub refresh-has_pool : has_pool j s ≡ true → has_pool j (refresh path get now s).1 ≡ true
  refresh-has_pool h =
      ap (has_pool j) (refresh-state path get now s)
      ∙ elim (Option-cases (get_cache_version path s)) [
        | inl e ↦ rw e (set_cache-has_pool path (raw_data get) now s j h)
        | inr (v, e) ↦ rw e h
      ]

-- An update of a pool changes its cache alone.
module _ (d : Differ) (force no_patch : Bool) (get : Text → Option Text) (now : Text → ℤ)
    (path : Text) (p : Pool) where
  update-key : (pool_update d force no_patch get now path p).0.key ≡ p.key
  unfolding pool_update set_pool_cache
  update-key = ground arith

  update-connections : (pool_update d force no_patch get now path p).0.connections ≡ p.connections
  unfolding pool_update set_pool_cache
  update-connections = ground arith

module _ (d : Differ) (deliver : ℕ → Bool) (get : Text → Option Text) (now : Text → ℤ)
    (path : Text) where
  -- The pools after a broadcast.
  abbrev after : Stream → List Pool → List Pool
  after s [] = []
  after s (clock ∷ pools) =
      clock ∷ pools_after d deliver get now path s.force_patch s.no_patch pools

  broadcast-pools_of :
      (s : Stream) (pools : List Pool)
      → s.pools ≡ pools
      → (broadcast d deliver get now path s).pools ≡ after s pools
  unfolding broadcast
  broadcast-pools_of s [] h =
      subst
        (λ l.
          (elim l as (λ _. Stream) [
            | [] ↦ s
            | c ∷ q ↦ broadcast_loop d deliver get now path (c ∷ []) q s
          ]).pools
          ≡ [])
        (sym h) h
  broadcast-pools_of s (clock ∷ pools) h =
      ap (λ t. t.pools) (broadcast_lem d deliver get now path clock pools s h)

  find_pool-after :
      (s : Stream) (j : Text) (pools : List Pool)
      → ((elim (find_pool j (after s pools)) [ none ↦ [] | some p ↦ p.connections ])
          ≡ (elim (find_pool j pools) [ none ↦ [] | some p ↦ p.connections ]))
        × ((elim (find_pool j (after s pools)) [ none ↦ false | some _ ↦ true ])
            ≡ (elim (find_pool j pools) [ none ↦ false | some _ ↦ true ]))
  unfolding find_pool
  find_pool-after s j [] = (refl, refl)
  find_pool-after s j (clock ∷ pools) =
      let change : Pool → Pool = λ p. (pool_update d s.force_patch s.no_patch get now path p).0 in
      let e = find_pool-map j change pools (update-key d s.force_patch s.no_patch get now path) in
      let c = update-connections d s.force_patch s.no_patch get now path in
      elim (Bool-cases (text_eq clock.key j)) [
        | inl f ↦ rw (f, if◌then◌else◌) (refl, refl)
        | inr f ↦
            rw (f, if◌then◌else◌, e)
              (elim (Option-cases (find_pool j pools)) [
                | inl g ↦ rw g (refl, refl)
                | inr (p, g) ↦ rw g (c p, refl)
              ])
      ]

  pub broadcast-connections :
      (s : Stream) (j : Text)
      → connections_of j (broadcast d deliver get now path s) ≡ connections_of j s
  broadcast-connections s j =
      ap (λ l. elim (find_pool j l) [ none ↦ [] | some p ↦ p.connections ])
        (broadcast-pools_of s s.pools refl)
      ∙ (find_pool-after s j s.pools).0

  pub broadcast-has_pool :
      (s : Stream) (j : Text) → has_pool j (broadcast d deliver get now path s) ≡ has_pool j s
  broadcast-has_pool s j =
      ap (λ l. elim (find_pool j l) [ none ↦ false | some p ↦ true ])
        (broadcast-pools_of s s.pools refl)
      ∙ (find_pool-after s j s.pools).1
