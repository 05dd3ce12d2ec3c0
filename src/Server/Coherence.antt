-- ===== src/Server/Coherence.antt =====
-- A write to the storage (memory.go), and the handling of its event (`watch` of ooo.go), against
-- the caches of the streams: they keep up with what is read.
use ooo.Base.{
  ℕ, Bool, true, false, List, [], ◌∷◌, Option, none, some, Text, text_eq, text_eq_iff, ◌≡◌, refl,
  ◌∙◌, ap, sym, subst, if◌then◌else◌, arith, Bool-cases, Option-cases, inl, inr, ℤ, All, is_empty,
}
use ooo.Key.{match, peer}
use ooo.Meta.{Codec, empty_object}
use ooo.Filters.{ok, err, check}
use ooo.Memory.Table.{Table, store, load-store}
use ooo.Memory.State.{Db}
use ooo.Memory.Writes.{entry, set}
use ooo.Memory.Effects.{stores, set-mem}
use ooo.Memory.Reads.{get, get_ordered, objects_if}
use ooo.Stream.{Cache, Pool, Differ, pool_update, set_pool_cache, broadcast}
use ooo.Stream.Broadcast.{broadcast_lem, pools_after}
use ooo.Server.{Server, watch, filtered_read, get_filtered_data}

-- The cache holds the data of a read that was not refused.
abbrev pub Shows : Cache → Option Text → Type 0
Shows cache none = Unit
Shows cache (some body) = cache.body ≡ body

-- What an update makes of a pool.
module _ (d : Differ) (force no_patch : Bool) (get : Text → Option Text) (clock : Text → ℤ)
    (path : Text) (p : Pool) where
  update-same : peer p.key path ≡ false → (pool_update d force no_patch get clock path p).0 ≡ p
  unfolding pool_update
  update-same e = ground arith

  update-refused : get p.key ≡ none → (pool_update d force no_patch get clock path p).0 ≡ p
  unfolding pool_update
  update-refused e = ground arith

  update-read :
      (bytes : Text)
      → peer p.key path ≡ true
      → get p.key ≡ some bytes
      → (pool_update d force no_patch get clock path p).0 ≡ set_pool_cache bytes (clock p.key) p
  unfolding pool_update
  update-read bytes e r = ground arith

module _ (codec : Codec) where
  -- A value under a key that does not pass the test changes nothing.
  objects_if-store :
      (p : Text → Bool) (key value : Text) (mem : Table Text)
      → p key ≡ false
      → objects_if codec p (store key value mem) ≡ objects_if codec p mem
  unfolding objects_if store
  objects_if-store p key value [] h = ground arith
  objects_if-store p key value ((k, v) ∷ mem) h =
      ground (arith, text_eq_iff k key, objects_if-store p key value mem h)

  pub not_peer :
      (j key : Text) → peer j key ≡ false → (match j key ≡ false) × (text_eq key j ≡ false)
  unfolding peer match
  not_peer j key h = ground (arith, text_eq_iff key j, text_eq_iff j key)

  pub get-store :
      (j key value : Text) (mem : Table Text)
      → peer j key ≡ false
      → get codec j (store key value mem) ≡ get codec j mem
  unfolding get get_ordered
  get-store j key value mem h =
      let (m, e) = not_peer j key h in
      ground (arith, load-store key j value mem, objects_if-store (match j) key value mem m)

  -- The pool's cache holds what a read of its key gives, if the read is not refused.
  abbrev pub IsCoherent : Server → Pool → Type 0
  IsCoherent app p = Shows p.cache (filtered_read codec app p.key)

  pub read-get :
      (app : Server) (db : Db) (j : Text)
      → get codec j db.mem ≡ get codec j app.storage.mem
      → filtered_read codec (record app { storage = db }) j ≡ filtered_read codec app j
  unfolding get_filtered_data
  read-get app db j g =
      ap
        (λ raw.
          elim (check codec j (if is_empty raw.0 then empty_object else raw.0) app.static
              app.filters.read)
            as (λ _. Option Text) [ err _ ↦ none | ok bytes ↦ some bytes ])
        g

  module _ (now : ℤ) (path body : Text) (app : Server) where
    -- The server after `Set`.
    abbrev pub after_set : Server
    after_set = record app { storage = (set codec now path body app.storage).1 }

    get-set :
        (j : Text)
        → peer j path ≡ false
        → get codec j after_set.storage.mem ≡ get codec j app.storage.mem
    get-set j h =
        ap (get codec j) (set-mem codec now path body app.storage)
        ∙ elim (Bool-cases (stores path body)) [
          | inl e ↦
              rw e (get-store j path (entry codec app.storage.mem path body now) app.storage.mem h)
          | inr e ↦ rw e
        ]

    module _ (d : Differ) (clock : Text → ℤ) (force no_patch : Bool) where
      abbrev updated : Pool → Pool
      updated p = (pool_update d force no_patch (filtered_read codec after_set) clock path p).0

      updated-IsCoherent : (p : Pool) → IsCoherent app p → IsCoherent after_set (updated p)
      updated-IsCoherent p h = elim (Bool-cases (peer p.key path)) [
        | inr e ↦
            subst (IsCoherent after_set)
              (sym (update-same d force no_patch (filtered_read codec after_set) clock path p e))
              (subst (Shows p.cache)
                (sym (read-get app (set codec now path body app.storage).1 p.key (get-set p.key e)))
                h)
        | inl e ↦ elim (Option-cases (filtered_read codec after_set p.key)) [
          | inl r ↦
              subst (IsCoherent after_set)
                (sym
                  (update-refused d force no_patch (filtered_read codec after_set) clock path p r))
                (subst (Shows p.cache) (sym r) tt)
          | inr (bytes, r) ↦
              subst (IsCoherent after_set)
                (sym (
                  update-read d force no_patch (filtered_read codec after_set) clock path p bytes e
                    r))
                (unfold set_pool_cache in
                  subst (Shows (record { version = clock p.key; body = bytes })) (sym r) refl)
        ]
      ]

      pools_after-IsCoherent :
          (deliver : ℕ → Bool) (pools : List Pool)
          → All (IsCoherent app) pools
          → All (IsCoherent after_set) (
              pools_after d deliver (filtered_read codec after_set) clock path force no_patch pools)
      pools_after-IsCoherent deliver [] h = tt
      pools_after-IsCoherent deliver (p ∷ pools) h =
          (updated-IsCoherent p h.0, pools_after-IsCoherent deliver pools h.1)

    watch-state :
        (d : Differ) (deliver : ℕ → Bool) (clock : Text → ℤ)
        → is_empty path ≡ false
        → watch codec d deliver clock path after_set ≡ record after_set {
          stream = broadcast d deliver (filtered_read codec after_set) clock path app.stream;
        }
    unfolding watch
    watch-state d deliver clock n = rw n

    -- If, behind the first pool, the cache of each pool holds what a read of its key gives, then
    -- it does so again after a `Set`, of whatever path but the empty one and whatever outcome, and
    -- the handling of the event of that path; the first pool stays as it is. A read that the
    -- filters refuse asks nothing of the cache.
    pub set-watch :
        (d : Differ) (deliver : ℕ → Bool) (clock : Text → ℤ) (first : Pool) (pools : List Pool)
        → is_empty path ≡ false
        → app.stream.pools ≡ first ∷ pools
        → All (IsCoherent app) pools
        → (pools' : List Pool) × ((watch codec d deliver clock path after_set).stream.pools
            ≡ first ∷ pools')
          × All (IsCoherent (watch codec d deliver clock path after_set)) pools'
    set-watch d deliver clock first pools n e h =
        let get = filtered_read codec after_set in
        let after =
          pools_after d deliver get clock path app.stream.force_patch app.stream.no_patch pools in
        let state = watch-state d deliver clock n in
        (
          after,
          ap (λ t. t.stream.pools) state
              ∙ ap (λ t. t.pools) (broadcast_lem d deliver get clock path first pools app.stream e),
          subst (λ t. All (IsCoherent t) after) (sym state)
              (unfold get_filtered_data in
                pools_after-IsCoherent d clock app.stream.force_patch app.stream.no_patch deliver
                  pools h),
        )
