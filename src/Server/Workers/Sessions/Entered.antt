-- ===== src/Server/Workers/Sessions/Entered.antt =====
-- What a subscription (ws.go) makes of the pools of stream/stream.go, and that the client is
-- subscribed then.
use ooo.Base.{
  ℕ, Bool, true, false, List, [], ◌∷◌, ◌++◌, Option, none, some, Text, text_eq_refl, text_eq_iff,
  All, count, count-append, is_empty, ◌≡◌, ◌≢◌, refl, ◌∙◌, sym, ap, inl, inr, arith, Bool-cases,
  Option-cases, ℤ,
}
use ooo.Stream.{
  Stream, Pool, Differ, no_cache, find_pool, at_pool, open_connection, refresh, set_cache,
  set_pool_cache, get_cache_version, raw_data,
}
use ooo.Stream.Pools.{find_pool-append, find_pool-at_pool}
use ooo.Messages.{Wire, patch_cache}
use ooo.Sync.{IsWire}
use ooo.Server.Workers.{pool_at}
use ooo.Server.Workers.Heard.{heard_all}
use ooo.Server.Workers.Sessions.Places.{
  place, at_pool-place, append-place, at_pool-append, at_pool-at_pool,
}
use ooo.Server.Workers.Sessions.Kept.{IsSubscribed, subscribed}

-- What a subscription makes of the pool of its key, with the data that it reads: the connection joins
-- it, and its cache takes the data if it has none.
abbrev pub joins : ℕ → Text → ℤ → Bool → Pool → Pool
joins client body now false p = record p { connections = p.connections ++ client ∷ [] }
joins client body now true p =
    set_pool_cache body now (record p { connections = p.connections ++ client ∷ [] })

module _ (key : Text) (get : Option Text) (now : ℤ) (s : Stream) (p : Pool)
    (found : find_pool key s.pools ≡ some p) where
  refresh-empty :
      is_empty p.cache.body ≡ true
      → (refresh key get now s).1
        ≡ record s { pools = at_pool key (set_pool_cache (raw_data get) now) s.pools }
  unfolding refresh get_cache_version set_cache
  refresh-empty e = ground arith

  refresh-cached : is_empty p.cache.body ≡ false → (refresh key get now s).1 ≡ s
  unfolding refresh get_cache_version
  refresh-cached e = ground arith

module _ (client : ℕ) (key : Text) (get : Option Text) (now : ℤ) (s : Stream) where
  abbrev pub entered : Stream
  entered = (refresh key get now (open_connection key client s)).1

  pub entered-none :
      find_pool key s.pools ≡ none
      → entered ≡ record s {
        pools =
            s.pools
            ++ record {
              key = key;
              cache = record { version = now; body = raw_data get };
              connections = client ∷ [];
            }
              ∷ [];
      }
  unfolding set_pool_cache
  entered-none e =
      let q : Pool = record { key = key; cache = no_cache; connections = client ∷ [] } in
      let opened : open_connection key client s ≡ record s { pools = s.pools ++ q ∷ [] } =
        unfold open_connection in ground arith in
      let found : find_pool key (s.pools ++ q ∷ []) ≡ some q =
        find_pool-append key s.pools q ∙ rw (e, text_eq_refl key) in
      ap (λ t. (refresh key get now t).1) opened
      ∙ refresh-empty key get now (record s { pools = s.pools ++ q ∷ [] }) q found refl
      ∙ ap (λ l. record s { pools = l })
          (at_pool-append key (set_pool_cache (raw_data get) now) q s.pools e refl)

  pub entered-some :
      (p : Pool)
      → find_pool key s.pools ≡ some p
      → entered ≡ record s {
        pools = at_pool key (joins client (raw_data get) now (is_empty p.cache.body)) s.pools;
      }
  unfolding set_pool_cache
  entered-some p e =
      let join : Pool → Pool = joins client (raw_data get) now false in
      let s' : Stream = record s { pools = at_pool key join s.pools } in
      let opened : open_connection key client s ≡ s' = unfold open_connection in ground arith in
      let found : find_pool key s'.pools ≡ some (join p) =
        find_pool-at_pool key key join s.pools (λ p. refl) ∙ rw (text_eq_refl key, e) in
      ap (λ t. (refresh key get now t).1) opened ∙ elim (Bool-cases (is_empty p.cache.body)) [
        | inl c ↦
            refresh-empty key get now s' (join p) found c
            ∙ ap (λ l. record s { pools = l })
                (at_pool-at_pool key (set_pool_cache (raw_data get) now) join s.pools (λ p. refl))
            ∙ rw c
        | inr c ↦ refresh-cached key get now s' (join p) found c ∙ rw c
      ]

find_pool-key :
    (key : Text) (pools : List Pool) (p : Pool) → find_pool key pools ≡ some p → p.key ≡ key
unfolding find_pool
find_pool-key key [] p f = absurd (ground arith)
find_pool-key key (q ∷ pools) p f = ground (arith, text_eq_iff q.key key, find_pool-key key pools p)

-- A client that is in no pool, and that nothing was written to.
pub record IsNew (client : ℕ) (s : Stream) : Type 0 where
  pub absent : (i : ℕ) (p : Pool) → pool_at i s.pools ≡ some p → count client p.connections ≡ 0
  pub unwritten : All (λ w. w.0 ≢ client) s.written

pub heard_all-unwritten :
    (wire : Wire) (client : ℕ) (cache : Text) (written : List (ℕ × Text))
    → All (λ w. w.0 ≢ client) written
    → heard_all wire client cache written ≡ cache
unfolding heard_all
heard_all-unwritten wire client cache [] h = refl
heard_all-unwritten wire client cache ((c, m) ∷ written) h =
    ground (arith, h.0, heard_all-unwritten wire client cache written h.1)

pub heard_all-one :
    (wire : Wire) (client : ℕ) (m cache : Text)
    → heard_all wire client cache ((client, m) ∷ []) ≡ (patch_cache wire m cache).0
unfolding heard_all
heard_all-one wire client m cache = ground arith

module _ (d : Differ) (wire : Wire) {V : Type 0} (value : Text → V) (is_document : Text → Bool)
    (laws : IsWire d wire value is_document) (deliver : ℕ → Bool) (client : ℕ) (cache : Text)
    (key : Text) (body : Text) (now : ℤ) (s s' : Stream) (new : IsNew client s)
    (doc : is_document body ≡ true)
    (heard : value (heard_all wire client cache s'.written) ≡ value body) where
  new_pool-IsSubscribed :
      find_pool key s.pools ≡ none
      → s'.pools ≡ (entered client key (some body) now s).pools
      → IsSubscribed d wire value is_document laws deliver client cache (place key s.pools) key s'
  new_pool-IsSubscribed f e =
      let q : Pool = record {
        key = key;
        cache = record { version = now; body = raw_data (some body) };
        connections = client ∷ [];
      } in
      let pools : s'.pools ≡ s.pools ++ q ∷ [] =
        e ∙ ap (λ t. t.pools) (entered-none client key (some body) now s f) in
      let raw : raw_data (some body) ≡ body = rw (laws.not_empty body doc) in
      let (there, others) = append-place key q s.pools f in
      subscribed d wire value is_document laws deliver client cache (place key s.pools) key s' q
        (ap (pool_at (place key s.pools)) pools ∙ there) refl
        (ap is_empty raw ∙ laws.not_empty body doc) (heard ∙ ap value (sym raw))
        (λ i p a. elim (others i p (ap (pool_at i) (sym pools) ∙ a)) [
          | inl (g, same) ↦ ap (λ t. count client t.connections) same ∙ ground arith
          | inr (g, old) ↦ new.absent i p old ∙ rw g
        ])

  old_pool-IsSubscribed :
      (p : Pool)
      → find_pool key s.pools ≡ some p
      → s'.pools ≡ (entered client key (some body) now s).pools
      → (is_empty p.cache.body ≡ false → value p.cache.body ≡ value body)
      → IsSubscribed d wire value is_document laws deliver client cache (place key s.pools) key s'
  unfolding set_pool_cache
  old_pool-IsSubscribed p f e cached =
      let raw : raw_data (some body) ≡ body = rw (laws.not_empty body doc) in
      let change : Pool → Pool = joins client (raw_data (some body)) now (is_empty p.cache.body) in
      let pools : s'.pools ≡ at_pool key change s.pools =
        e ∙ ap (λ t. t.pools) (entered-some client key (some body) now s p f) in
      let (there, others) = at_pool-place key change p s.pools f in
      let joined : (change p).connections ≡ p.connections ++ client ∷ [] = ground arith in
      let named : (change p).key ≡ p.key = ground arith in
      let full : (is_empty (change p).cache.body ≡ false)
          × (value (change p).cache.body ≡ value body) =
        elim (Bool-cases (is_empty p.cache.body)) [
          | inl c ↦ rw (c, joins, raw) (laws.not_empty body doc, refl)
          | inr c ↦ rw (c, joins) (c, cached c)
        ] in
      subscribed d wire value is_document laws deliver client cache (place key s.pools) key s'
        (change p) (ap (pool_at (place key s.pools)) pools ∙ there)
        (named ∙ find_pool-key key s.pools p f) full.0 (heard ∙ sym full.1)
        (λ i r a. elim (others i r (ap (pool_at i) (sym pools) ∙ a)) [
          | inl (g, same, old) ↦
              ap (λ t. count client t.connections) same
              ∙ ap (count client) joined
              ∙ ground (arith, count-append client p.connections (client ∷ []), new.absent i p old)
          | inr (g, old) ↦ new.absent i r old ∙ rw g
        ])

  pub entered-IsSubscribed :
      s'.pools ≡ (entered client key (some body) now s).pools
      → ((p : Pool)
          → find_pool key s.pools ≡ some p
          → is_empty p.cache.body ≡ false
          → value p.cache.body ≡ value body)
      → IsSubscribed d wire value is_document laws deliver client cache (place key s.pools) key s'
  entered-IsSubscribed e cached = elim (Option-cases (find_pool key s.pools)) [
    | inl f ↦ new_pool-IsSubscribed f e
    | inr (p, f) ↦ old_pool-IsSubscribed p f e (cached p f)
  ]
