-- ===== src/Server/Workers/Loop.antt =====
-- The loop of `Broadcast` (stream/stream.go) over the pools, one pool after the other.
use ooo.Base.{
  ℕ, Bool, true, List, [], ◌∷◌, ◌++◌, Option, none, some, Text, ◌≡◌, refl, ◌∙◌, sym, ap, inl, inr,
  arith, Bool-cases, ℤ, length,
}
use ooo.Key.{peer}
use ooo.Stream.{
  Stream, Pool, Differ, set_pool_cache, pool_update, broadcast_loop, frame, patch_update, send_all,
}
use ooo.Stream.Broadcast.{wrote, send_all-wrote, broadcast_loop-visited}
use ooo.Server.Workers.{pool_at, set_pool_at, update_pool}

pub pool_at-append :
    (done pools : List Pool) (p : Pool) → pool_at (length done) (done ++ p ∷ pools) ≡ some p
unfolding pool_at
pool_at-append [] pools p = refl
pool_at-append (q ∷ done) pools p = pool_at-append done pools p

pub pool_at-end : (done : List Pool) → pool_at (length done) done ≡ none
unfolding pool_at
pool_at-end [] = refl
pool_at-end (q ∷ done) = pool_at-end done

pub set_pool_at-append :
    (done pools : List Pool) (p q : Pool)
    → set_pool_at (length done) q (done ++ p ∷ pools) ≡ done ++ q ∷ pools
unfolding set_pool_at
set_pool_at-append [] pools p q = refl
set_pool_at-append (r ∷ done) pools p q = ap (λ t. r ∷ t) (set_pool_at-append done pools p q)

module _ (d : Differ) (deliver : ℕ → Bool) (get : Text → Option Text) (clock : Text → ℤ)
    (key : Text) where
  abbrev pub loop : List Pool → List Pool → Stream → Stream
  loop = broadcast_loop d deliver get clock key

  -- The loop does not look at the pools of the stream, which it is given.
  loop-pools :
      (done pools other : List Pool) (s : Stream)
      → loop done pools (record s { pools = other }) ≡ loop done pools s
  unfolding wrote
  loop-pools done pools other s =
      broadcast_loop-visited d deliver get clock key done pools (record s { pools = other })
      ∙ sym (broadcast_loop-visited d deliver get clock key done pools s)

  abbrev set_pools : List Pool → Stream → Stream
  set_pools other s = record s { pools = other }

  send_all-pools :
      (message : Text) (clients : List ℕ) (other : List Pool) (s : Stream)
      → send_all deliver message clients (record s { pools = other })
        ≡ record (send_all deliver message clients s) { pools = other }
  unfolding wrote
  send_all-pools message clients other s =
      send_all-wrote deliver message clients (record s { pools = other })
      ∙ sym (ap (set_pools other) (send_all-wrote deliver message clients s))

  pub loop-skip :
      (done pools : List Pool) (p : Pool) (s : Stream)
      → (peer p.key key ≡ true → get p.key ≡ none)
      → loop done (p ∷ pools) s ≡ loop (done ++ p ∷ []) pools s
  loop-skip done pools p s h = elim (Bool-cases (peer p.key key)) [
    | inl e ↦ unfold broadcast_loop pool_update in ground (arith, h e)
    | inr e ↦ unfold broadcast_loop pool_update in ground arith
  ]

  pub loop-update :
      (done pools : List Pool) (p : Pool) (body : Text) (s : Stream)
      → peer p.key key ≡ true
      → get p.key ≡ some body
      → loop done (p ∷ pools) s
        ≡ loop
            (done ++ set_pool_cache body (clock p.key) p ∷ [])
            pools
            (update_pool d deliver (clock p.key) (length done) p body s)
  loop-update done pools p body s e r =
      let done' = done ++ set_pool_cache body (clock p.key) p ∷ [] in
      let u = patch_update d s.force_patch s.no_patch p.cache body (clock p.key) in
      let message = frame u.body u.snapshot u.version in
      let pools' = set_pool_at (length done) (set_pool_cache body (clock p.key) p) s.pools in
      let first : loop done (p ∷ pools) s
          ≡ loop done' pools (send_all deliver message p.connections s) =
        unfold broadcast_loop pool_update in ground arith in
      first
      ∙ sym (loop-pools done' pools pools' (send_all deliver message p.connections s))
      ∙ ap (loop done' pools)
          (unfold update_pool in sym (send_all-pools message p.connections pools' s))
