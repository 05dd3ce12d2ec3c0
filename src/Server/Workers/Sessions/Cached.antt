-- ===== src/Server/Workers/Sessions/Cached.antt =====
-- The cache of a subscribed client's pool (stream/stream.go) and what is read for its key: one
-- reader of the channel sees to it that they agree, whatever others do to the pool.
use ooo.Base.{
  ℕ, ◌≤◌, Bool, true, false, List, [], ◌∷◌, ◌++◌, Option, none, some, Text, is_empty, ◌≡◌, refl,
  ◌∙◌, sym, ap, subst, ◌⊎◌, inl, inr, arith, Bool-cases, Option-cases, ℤ,
}
use ooo.Meta.{Codec}
use ooo.Memory.State.{Event}
use ooo.Memory.Writes.{Merge}
use ooo.Stream.{Stream, Pool, Differ, find_pool, at_pool, set_pool_cache, raw_data}
use ooo.Messages.{Wire}
use ooo.Sync.{IsWire}
use ooo.Server.{Server, filtered_read}
use ooo.Server.Coherence.{Shows}
use ooo.Server.Workers.{Worker, waiting, visiting, holding, checking, ended, pool_at, System}
use ooo.Server.Workers.Visits.{IsAhead, Settled, Follows, read-stream}
use ooo.Server.Workers.Single.{Inv, Step-Inv}
use ooo.Server.Workers.Documents.{HasDocuments}
use ooo.Server.Workers.Sessions.{
  IsOutside, with_stream, Passage, step, change, message, Passages, none_yet, then_,
}
use ooo.Server.Workers.Sessions.Places.{place, at_pool-place, append-place}
use ooo.Server.Workers.Sessions.Kept.{pool_at_unique, IsSubscribed, IsKept, Change-IsKept}
use ooo.Server.Workers.Sessions.Passed.{Delivery-IsKept, Passages-IsSubscribed}
use ooo.Server.Workers.Sessions.Entered.{joins, entered, entered-none, entered-some}

-- What is asked of a pool is asked of its key and its cache.
module _ (read : Option Text) (i : ℕ) (p q : Pool) (keys : p.key ≡ q.key)
    (caches : p.cache ≡ q.cache) where
  IsAhead-same :
      (j : ℕ) (key : Text)
      → Shows p.cache read ⊎ IsAhead j i p key
      → Shows q.cache read ⊎ IsAhead j i q key
  IsAhead-same j key (inl s) = inl (subst (λ c. Shows c read) caches s)
  IsAhead-same j key (inr (le, e)) = inr (le, cc)

  Settled-same : (w : Worker) → Settled read w i p → Settled read w i q
  Settled-same waiting s = subst (λ c. Shows c read) caches s
  Settled-same (visiting key j) s = IsAhead-same j key s
  Settled-same (holding key j body) (inl s) = inl s
  Settled-same (holding key j body) (inr (n, s)) = inr (n, IsAhead-same _ key s)
  Settled-same checking s = subst (λ c. Shows c read) caches s
  Settled-same ended s = subst (λ c. Shows c read) caches s

Follows-same :
    (codec : Codec) (app : Server) (stream : Stream) (events : List Event) (w : Worker) (i : ℕ)
    (p q : Pool)
    → p.key ≡ q.key
    → p.cache ≡ q.cache
    → Follows codec app events w i p
    → Follows codec (record app { stream = stream }) events w i q
Follows-same codec app stream events w i p q k c (inl due) = inl (cc)
Follows-same codec app stream events w i p q k c (inr s) = inr (
    subst (λ r. Settled r w i q)
      (ap (filtered_read codec app) k ∙ sym (read-stream codec app stream q.key))
      (Settled-same (filtered_read codec app p.key) i p q k c w s))

-- A reader outside `Broadcast` has nothing left to do for a cache that holds what is read.
pub outside-Settled :
    (read : Option Text) (w : Worker) (i : ℕ) (p : Pool)
    → IsOutside w
    → Shows p.cache read
    → Settled read w i p
outside-Settled read waiting i p o s = s
outside-Settled read (visiting key j) i p o s = inl s
outside-Settled read (holding key j body) i p o s = absurd o
outside-Settled read checking i p o s = s
outside-Settled read ended i p o s = s

-- After a subscription the pool's cache holds what was read, if cached data did before.
module _ (client : ℕ) (key body : Text) (now : ℤ) (s s' : Stream) (r : Pool)
    (filled : is_empty body ≡ false)
    (pools : s'.pools ≡ (entered client key (some body) now s).pools)
    (at : pool_at (place key s.pools) s'.pools ≡ some r) where
  new_pool-body : find_pool key s.pools ≡ none → r.cache.body ≡ body
  new_pool-body f =
      let q : Pool = record {
        key = key;
        cache = record { version = now; body = raw_data (some body) };
        connections = client ∷ [];
      } in
      let there : pool_at (place key s.pools) (s.pools ++ q ∷ []) ≡ some q =
        (append-place key q s.pools f).0 in
      let same : r ≡ q = pool_at_unique (place key s.pools) s'.pools r q at (
        ap (pool_at (place key s.pools))
          (pools ∙ ap (λ t. t.pools) (entered-none client key (some body) now s f))
        ∙ there) in
      ap (λ t. t.cache.body) same ∙ rw filled

  old_pool-body :
      (p : Pool)
      → find_pool key s.pools ≡ some p
      → (is_empty p.cache.body ≡ false → p.cache.body ≡ body)
      → r.cache.body ≡ body
  unfolding set_pool_cache
  old_pool-body p f cached =
      let change : Pool → Pool = joins client (raw_data (some body)) now (is_empty p.cache.body) in
      let there : pool_at (place key s.pools) (at_pool key change s.pools) ≡ some (change p) =
        (at_pool-place key change p s.pools f).0 in
      let same : r ≡ change p = pool_at_unique (place key s.pools) s'.pools r (change p) at (
        ap (pool_at (place key s.pools))
          (pools ∙ ap (λ t. t.pools) (entered-some client key (some body) now s p f))
        ∙ there) in
      ap (λ t. t.cache.body) same ∙ elim (Bool-cases (is_empty p.cache.body)) [
        | inl c ↦ rw (c, joins, filled) refl
        | inr c ↦ rw (c, joins) (cached c)
      ]

  pub entered-body :
      ((p : Pool)
        → find_pool key s.pools ≡ some p
        → is_empty p.cache.body ≡ false
        → p.cache.body ≡ body)
      → r.cache.body ≡ body
  entered-body cached = elim (Option-cases (find_pool key s.pools)) [
    | inl f ↦ new_pool-body f
    | inr (p, f) ↦ old_pool-body p f (cached p f)
  ]

-- The one pool that is looked at.
abbrev pub Only : ℕ → ℕ → Type 0
Only k i = i ≡ k

pub Only-behind : (k : ℕ) → 1 ≤ k → (i : ℕ) → Only k i → 1 ≤ i
Only-behind k behind i e = omega (arith, e, behind)

module _ (codec : Codec) (merge : Merge) (d : Differ) (wire : Wire) {V : Type 0} (value : Text → V)
    (is_document : Text → Bool) (laws : IsWire d wire value is_document) (deliver : ℕ → Bool)
    (client : ℕ) (cache : Text) (k : ℕ) (key : Text) (behind : 1 ≤ k) where
  abbrev pub InvOnly : List Text → System → Type 0
  InvOnly = Inv codec merge d deliver (Only k) (Only-behind k behind)

  kept-Inv :
      (quiet : List Text) (s : System) (stream : Stream)
      → (h : IsSubscribed d wire value is_document laws deliver client cache k key s.app.stream)
      → IsKept d wire value is_document laws deliver client cache k key s.app.stream stream h
      → InvOnly quiet s
      → InvOnly quiet (with_stream s stream)
  kept-Inv quiet s stream h kept inv = record {
    events = inv.events;
    is_open = inv.is_open;
    pools = λ i p e at.
        let q = kept.now_joined.pool in
        let same : q ≡ p =
          pool_at_unique k stream.pools q p kept.now_joined.at
            (subst (λ j. pool_at j stream.pools ≡ some p) e at) in
        Follows-same codec s.app stream inv.events (s.workers 0) i h.pool p
          (h.named ∙ sym kept.now_joined.named ∙ ap (λ t. t.key) same)
          (sym kept.cached ∙ ap (λ t. t.cache) same)
          (inv.pools i h.pool e
            (subst (λ j. pool_at j s.app.stream.pools ≡ some h.pool) (sym e) h.at));
  }

  Passage-Inv :
      (quiet : List Text) (s t : System)
      → Passage codec merge d deliver 1 client s t
      → IsSubscribed d wire value is_document laws deliver client cache k key s.app.stream
      → InvOnly quiet s
      → InvOnly quiet t
  Passage-Inv quiet s t (step _ st) h inv =
      Step-Inv codec merge d deliver (Only k) (Only-behind k behind) quiet s t st inv
  Passage-Inv quiet s t (change stream outside m) h inv =
      kept-Inv quiet s stream h
        (Change-IsKept d wire value is_document laws deliver client cache k key s.app.stream h
          (filtered_read codec s.app) stream m)
        inv
  Passage-Inv quiet s t (message stream m) h inv =
      kept-Inv quiet s stream h
        (Delivery-IsKept d wire value is_document laws deliver client cache k key s.app.stream h
          stream (omega (arith, behind)) m)
        inv

  pub Passages-Inv :
      (quiet : List Text) (s t : System)
      → deliver client ≡ true
      → Passages codec merge d deliver 1 client s t
      → HasDocuments codec merge d wire value is_document laws deliver s
      → IsSubscribed d wire value is_document laws deliver client cache k key s.app.stream
      → InvOnly quiet s
      → InvOnly quiet t
  Passages-Inv quiet s t r none_yet docs h inv = inv
  Passages-Inv quiet s t r (then_ {t = u} p st) docs h inv =
      Passage-Inv quiet u t st
        (Passages-IsSubscribed d wire value is_document laws deliver client cache k key codec merge
          1 s u r (omega (arith, behind)) p docs h).1
        (Passages-Inv quiet s u r p docs h inv)
