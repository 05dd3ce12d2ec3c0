-- ===== src/Server/Workers/Places.antt =====
-- The pools by their places in the list that `Broadcast` (stream/stream.go) goes through, and the
-- events that wait for a reader.
use ooo.Base.{
  ℕ, zero, suc, ◌≤◌, Bool, true, false, not, ◌&&◌, ◌||◌, List, [], ◌∷◌, ◌++◌, none, some, Text, ◌≡◌,
  ◌≢◌, refl, ap, ◌⊎◌, inl, inr, arith, ℤ, is_empty,
}
use ooo.Key.{peer}
use ooo.Memory.State.{Event}
use ooo.Stream.{Stream, Pool, Differ, set_pool_cache}
use ooo.Stream.Broadcast.{wrote, send_all-wrote}
use ooo.Server.Workers.{pool_at, set_pool_at, update_pool}

-- Whether the pool of a key is told by an event whose sender still waits.
unfoldable pub is_due : Text → List Event → Bool
is_due key [] = false
is_due key (e ∷ events) = not (is_empty e.key) && peer key e.key || is_due key events

pub is_due-append :
    (key : Text) (a b : List Event) → is_due key (a ++ b) ≡ (is_due key a || is_due key b)
unfolding is_due
is_due-append key [] b = refl
is_due-append key (e ∷ a) b = ground (arith, is_due-append key a b)

-- An event that is received was the one that told, or another one tells.
pub is_due-remove :
    (key : Text) (before after : List Event) (e : Event)
    → is_due key (before ++ e ∷ after) ≡ true
    → (is_due key (before ++ after) ≡ true) ⊎ ((is_empty e.key ≡ false) × (peer key e.key ≡ true))
unfolding is_due
is_due-remove key before after e h =
    ground (arith, is_due-append key before (e ∷ after), is_due-append key before after)

pub pool_at-set :
    (i j : ℕ) (q p : Pool) (pools : List Pool)
    → pool_at i (set_pool_at j q pools) ≡ some p
    → ((i ≡ j) × (p ≡ q)) ⊎ ((i ≢ j) × (pool_at i pools ≡ some p))
unfolding pool_at set_pool_at
pool_at-set i j q p [] h = ground arith
pool_at-set zero zero q p (r ∷ pools) h = inl (refl, ground arith)
pool_at-set zero (suc j) q p (r ∷ pools) h = inr (omega arith, h)
pool_at-set (suc i) zero q p (r ∷ pools) h = inr (omega arith, h)
pool_at-set (suc i) (suc j) q p (r ∷ pools) h = elim (pool_at-set i j q p pools h) [
  | inl (e, f) ↦ inl (ap suc e, f)
  | inr (n, f) ↦ inr (omega (arith, n), f)
]

pub pool_at-le :
    (i j : ℕ) (p : Pool) (pools : List Pool)
    → j ≤ i
    → pool_at i pools ≡ some p
    → pool_at j pools ≢ none
unfolding pool_at
pool_at-le i j p [] le h = ground arith
pool_at-le i zero p (r ∷ pools) le h = ground arith
pool_at-le zero (suc j) p (r ∷ pools) le h = absurd (omega arith)
pool_at-le (suc i) (suc j) p (r ∷ pools) le h = pool_at-le i j p pools (omega arith) h

pub update_pool-pools :
    (d : Differ) (deliver : ℕ → Bool) (now : ℤ) (i : ℕ) (p : Pool) (body : Text) (s : Stream)
    → (update_pool d deliver now i p body s).pools
      ≡ set_pool_at i (set_pool_cache body now p) s.pools
unfolding update_pool wrote
update_pool-pools d deliver now i p body s =
    ap (λ t. t.pools) (send_all-wrote deliver _ p.connections _)
