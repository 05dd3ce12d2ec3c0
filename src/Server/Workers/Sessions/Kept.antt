-- ===== src/Server/Workers/Sessions/Kept.antt =====
-- What the subscriptions of others, the clock, the writers and the readers leave of a client's own
-- subscription (stream/stream.go).
use ooo.Base.{
  ℕ, ◌==◌, Bool, false, not, List, [], ◌∷◌, ◌++◌, Option, none, some, Text, count, count-append,
  select, is_empty, ◌≡◌, ◌≢◌, refl, ◌∙◌, sym, ap, subst, inl, inr, if◌then◌else◌, arith, Bool-cases,
  Option-cases, ℤ,
}
use ooo.Stream.{
  Stream, Pool, Differ, no_cache, find_pool, at_pool, open_connection, close, refresh, set_cache,
  set_pool_cache, get_cache_version, raw_data,
}
use ooo.Messages.{Wire}
use ooo.Sync.{IsWire}
use ooo.Server.Workers.{pool_at}
use ooo.Server.Workers.Heard.{heard_all, IsJoined}
use ooo.Server.Workers.Sessions.{Change, enter, leave, fill}
use ooo.Server.Workers.Sessions.Places.{
  pool_at-append, pool_at-append_cases, pool_at-at_pool, pool_at-at_pool_cases, count-without,
}

pub pool_at_unique :
    (k : ℕ) (pools : List Pool) (p q : Pool)
    → pool_at k pools ≡ some p
    → pool_at k pools ≡ some q
    → p ≡ q
pool_at_unique k pools p q a b = cc

module _ (d : Differ) (wire : Wire) {V : Type 0} (value : Text → V) (is_document : Text → Bool)
    (laws : IsWire d wire value is_document) (deliver : ℕ → Bool) (client : ℕ) (cache : Text)
    (k : ℕ) (key : Text) where
  -- The client is in one pool, once, the pool has the key and cached data, and the client's cache
  -- means what that of the pool means.
  pub record IsSubscribed (s : Stream) : Type 0 where
    pub joined : IsJoined d wire value is_document laws deliver client cache k s
    pub pool : Pool
    pub at : pool_at k s.pools ≡ some pool
    pub named : pool.key ≡ key
    pub filled : is_empty pool.cache.body ≡ false

  -- The same from what is known of the pool.
  abbrev pub subscribed :
      (s : Stream) (pool : Pool)
      → pool_at k s.pools ≡ some pool
      → pool.key ≡ key
      → is_empty pool.cache.body ≡ false
      → value (heard_all wire client cache s.written) ≡ value pool.cache.body
      → ((i : ℕ) (p : Pool)
          → pool_at i s.pools ≡ some p
          → count client p.connections ≡ (if i == k then 1 else 0))
      → IsSubscribed s
  subscribed s pool at named filled same only = record {
    joined = record {
      only = only;
      follows = λ p e. same ∙ ap (λ t. value t.cache.body) (pool_at_unique k s.pools pool p at e);
    };
    pool = pool;
    at = at;
    named = named;
    filled = filled;
  }

  -- The client is still subscribed, with the same data in the cache of its pool.
  pub record IsKept (s s' : Stream) (h : IsSubscribed s) : Type 0 where
    pub now_joined : IsSubscribed s'
    pub cached : now_joined.pool.cache ≡ h.pool.cache

  module _ (s s' : Stream) (h : IsSubscribed s)
      (heard : heard_all wire client cache s'.written ≡ heard_all wire client cache s.written) where
    -- Nothing changes but what others are written.
    pub same_pools-IsKept : s'.pools ≡ s.pools → IsKept s s' h
    same_pools-IsKept e = record {
      now_joined =
          subscribed s' h.pool (ap (pool_at k) e ∙ h.at) h.named h.filled
            (ap value heard ∙ h.joined.follows h.pool h.at)
            (λ i p a. h.joined.only i p (ap (pool_at i) (sym e) ∙ a));
      cached = refl;
    }

    -- A pool comes without the client.
    append-IsKept :
        (q : Pool) → s'.pools ≡ s.pools ++ q ∷ [] → count client q.connections ≡ 0 → IsKept s s' h
    append-IsKept q e c = record {
      now_joined =
          subscribed s' h.pool (ap (pool_at k) e ∙ pool_at-append k h.pool s.pools q h.at) h.named
            h.filled (ap value heard ∙ h.joined.follows h.pool h.at)
            (λ i p a. elim (pool_at-append_cases i p s.pools q (ap (pool_at i) (sym e) ∙ a)) [
              | inl old ↦ h.joined.only i p old
              | inr (n, new) ↦
                  let other : (i == k) ≡ false = at_other i n in
                  ap (λ t. count client t.connections) new ∙ c ∙ rw other
            ]);
      cached = refl;
    }
      where
        at_other : (i : ℕ) → pool_at i s.pools ≡ none → (i == k) ≡ false
        at_other i n = elim (Bool-cases (i == k)) [
          | inr e' ↦ e'
          | inl e' ↦
              let same : k ≡ i = ground arith in
              let there : pool_at i s.pools ≡ some h.pool =
                subst (λ j. pool_at j s.pools ≡ some h.pool) same h.at in
              absurd (ground arith)
        ]

    -- The pool of a key changes, the client's connection and the client's cached data do not.
    change-IsKept :
        (j : Text) (change : Pool → Pool)
        → s'.pools ≡ at_pool j change s.pools
        → ((p : Pool) → (change p).key ≡ p.key)
        → ((p : Pool) → count client (change p).connections ≡ count client p.connections)
        → (find_pool j s.pools ≡ some h.pool → (change h.pool).cache ≡ h.pool.cache)
        → IsKept s s' h
    change-IsKept j change e keys counts caches =
        elim (pool_at-at_pool j change k h.pool s.pools h.at) [
          | inl a ↦ record {
            now_joined =
                subscribed s' h.pool (ap (pool_at k) e ∙ a) h.named h.filled
                  (ap value heard ∙ h.joined.follows h.pool h.at) only;
            cached = refl;
          }
          | inr (a, f) ↦ record {
            now_joined =
                subscribed s' (change h.pool) (ap (pool_at k) e ∙ a) (keys h.pool ∙ h.named)
                  (ap (λ t. is_empty t.body) (caches f) ∙ h.filled)
                  (ap value heard
                    ∙ h.joined.follows h.pool h.at
                    ∙ ap (λ t. value t.body) (sym (caches f)))
                  only;
            cached = caches f;
          }
        ]
      where
        only :
            (i : ℕ) (p : Pool)
            → pool_at i s'.pools ≡ some p
            → count client p.connections ≡ (if i == k then 1 else 0)
        only i p a =
            elim (pool_at-at_pool_cases j change i p s.pools (ap (pool_at i) (sym e) ∙ a)) [
              | inl old ↦ h.joined.only i p old
              | inr (q, old, new) ↦
                  ap (λ t. count client t.connections) new ∙ counts q ∙ h.joined.only i q old
            ]

  module _ (s : Stream) (h : IsSubscribed s) where
    enter-IsKept : (j : Text) (c : ℕ) → c ≢ client → IsKept s (open_connection j c s) h
    enter-IsKept j c n = elim (Option-cases (find_pool j s.pools)) [
      | inl e ↦
          let q : Pool = record { key = j; cache = no_cache; connections = c ∷ [] } in
          let f : open_connection j c s ≡ record s { pools = s.pools ++ q ∷ [] } =
            unfold open_connection in ground arith in
          subst (λ t. IsKept s t h) (sym f) (append-IsKept s _ h refl q refl (ground arith))
      | inr (p, e) ↦
          let join : Pool → Pool = λ p. record p { connections = p.connections ++ c ∷ [] } in
          let f : open_connection j c s ≡ record s { pools = at_pool j join s.pools } =
            unfold open_connection in ground arith in
          subst (λ t. IsKept s t h) (sym f)
            (change-IsKept s _ h refl j join refl (λ p. refl)
              (λ p. ground (arith, count-append client p.connections (c ∷ []))) (λ _. refl))
    ]

    leave-IsKept :
        (j : Text) (c : ℕ) (s' : Stream) → c ≢ client → close j c s ≡ some s' → IsKept s s' h
    leave-IsKept j c s' n e = elim (Option-cases (find_pool j s.pools)) [
      | inl f ↦ absurd (unfold close in ground arith)
      | inr (p, f) ↦
          let part : Pool → Pool =
            λ p. record p { connections = select (λ x. not (x == c)) p.connections } in
          let g : s' ≡ record s { pools = at_pool j part s.pools; closed = s.closed ++ c ∷ [] } =
            unfold close in ground arith in
          subst (λ t. IsKept s t h) (sym g)
            (change-IsKept s _ h refl j part refl (λ p. refl)
              (λ p. count-without client c p.connections n) (λ _. refl))
    ]

    fill-IsKept : (j : Text) (get : Option Text) (now : ℤ) → IsKept s (refresh j get now s).1 h
    fill-IsKept j get now = elim (Option-cases (get_cache_version j s)) [
      | inr (v, e) ↦
          let f : (refresh j get now s).1 ≡ s = unfold refresh in ground arith in
          subst (λ t. IsKept s t h) (sym f) (record { now_joined = h; cached = refl })
      | inl e ↦ elim (Option-cases (find_pool j s.pools)) [
        | inl g ↦
            let q : Pool = record {
              key = j;
              cache = record { version = now; body = raw_data get };
              connections = [];
            } in
            let f : (refresh j get now s).1 ≡ record s { pools = s.pools ++ q ∷ [] } =
              unfold refresh set_cache in ground arith in
            subst (λ t. IsKept s t h) (sym f) (append-IsKept s _ h refl q refl refl)
        | inr (p, g) ↦
            let f : (refresh j get now s).1
                ≡ record s { pools = at_pool j (set_pool_cache (raw_data get) now) s.pools } =
              unfold refresh set_cache in ground arith in
            subst (λ t. IsKept s t h) (sym f)
              (change-IsKept s _ h refl j (set_pool_cache (raw_data get) now) refl
                (λ p. unfold set_pool_cache in refl) (λ p. unfold set_pool_cache in refl)
                (λ own. absurd (let n = h.filled in unfold get_cache_version in ground arith)))
      ]
    ]

    -- Whatever others do that have the mutex for writing.
    pub Change-IsKept :
        (get : Text → Option Text) (s' : Stream) → Change client get s s' → IsKept s s' h
    Change-IsKept get s' (enter j c n) = enter-IsKept j c n
    Change-IsKept get s' (leave j c _ n e) = leave-IsKept j c s' n e
    Change-IsKept get s' (fill j now) = fill-IsKept j (get j) now
