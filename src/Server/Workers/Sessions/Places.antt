-- ===== src/Server/Workers/Sessions/Places.antt =====
-- The pools by their places when connections and caches change (stream/stream.go): a pool stays
-- where it is, and a new one comes last.
use ooo.Base.{
  ℕ, zero, suc, true, false, not, List, [], ◌∷◌, ◌++◌, none, some, Text, text_eq, text_eq_iff,
  count, select, ◌==◌, ◌≡◌, ◌≢◌, refl, ◌⊎◌, inl, inr, if◌then◌else◌, arith, Bool-cases,
}
use ooo.Stream.{Pool, find_pool, at_pool}
use ooo.Server.Workers.{pool_at, set_pool_at}

pub pool_at-append :
    (i : ℕ) (p : Pool) (pools : List Pool) (q : Pool)
    → pool_at i pools ≡ some p
    → pool_at i (pools ++ q ∷ []) ≡ some p
unfolding pool_at
pool_at-append i p [] q h = ground arith
pool_at-append zero p (r ∷ pools) q h = h
pool_at-append (suc i) p (r ∷ pools) q h = pool_at-append i p pools q h

-- What stands at a place after a pool was added.
pub pool_at-append_cases :
    (i : ℕ) (p : Pool) (pools : List Pool) (q : Pool)
    → pool_at i (pools ++ q ∷ []) ≡ some p
    → (pool_at i pools ≡ some p) ⊎ ((pool_at i pools ≡ none) × (p ≡ q))
unfolding pool_at
pool_at-append_cases zero p [] q h = inr (refl, ground arith)
pool_at-append_cases (suc i) p [] q h = ground arith
pool_at-append_cases zero p (r ∷ pools) q h = inl h
pool_at-append_cases (suc i) p (r ∷ pools) q h = pool_at-append_cases i p pools q h

module _ (key : Text) (change : Pool → Pool) where
  pub pool_at-at_pool :
      (i : ℕ) (p : Pool) (pools : List Pool)
      → pool_at i pools ≡ some p
      → (pool_at i (at_pool key change pools) ≡ some p)
        ⊎ ((pool_at i (at_pool key change pools) ≡ some (change p))
            × (find_pool key pools ≡ some p))
  unfolding pool_at at_pool find_pool
  pool_at-at_pool i p [] h = ground arith
  pool_at-at_pool zero p (r ∷ pools) h = elim (Bool-cases (text_eq r.key key)) [
    | inl e ↦ inr (ground arith, ground arith)
    | inr e ↦ inl (ground arith)
  ]
  pool_at-at_pool (suc i) p (r ∷ pools) h = elim (Bool-cases (text_eq r.key key)) [
    | inl e ↦ inl (rw e h)
    | inr e ↦ rw e (pool_at-at_pool i p pools h)
  ]

  -- What stands at a place after the pool of a key was changed.
  pub pool_at-at_pool_cases :
      (i : ℕ) (p : Pool) (pools : List Pool)
      → pool_at i (at_pool key change pools) ≡ some p
      → (pool_at i pools ≡ some p) ⊎ ((q : Pool) × (pool_at i pools ≡ some q) × (p ≡ change q))
  unfolding pool_at at_pool
  pool_at-at_pool_cases i p [] h = ground arith
  pool_at-at_pool_cases zero p (r ∷ pools) h = elim (Bool-cases (text_eq r.key key)) [
    | inl e ↦ inr (r, refl, ground arith)
    | inr e ↦ inl (ground arith)
  ]
  pool_at-at_pool_cases (suc i) p (r ∷ pools) h = elim (Bool-cases (text_eq r.key key)) [
    | inl e ↦ inl (ground arith)
    | inr e ↦ pool_at-at_pool_cases i p pools (ground arith)
  ]

pub pool_at-set_self :
    (i j : ℕ) (q p : Pool) (pools : List Pool)
    → pool_at i pools ≡ some p
    → pool_at i (set_pool_at j q pools) ≡ (if i == j then some q else some p)
unfolding pool_at set_pool_at
pool_at-set_self i j q p [] h = ground arith
pool_at-set_self zero zero q p (r ∷ pools) h = refl
pool_at-set_self zero (suc j) q p (r ∷ pools) h = ground arith
pool_at-set_self (suc i) zero q p (r ∷ pools) h = ground arith
pool_at-set_self (suc i) (suc j) q p (r ∷ pools) h =
    ground (arith, pool_at-set_self i j q p pools h)

pub count-without :
    (c j : ℕ) (a : List ℕ) → j ≢ c → count c (select (λ x. not (x == j)) a) ≡ count c a
count-without c j [] n = refl
count-without c j (x ∷ a) n = ground (arith, count-without c j a n)

-- The place of the first pool of a key, or behind the last pool.
unfoldable pub place : Text → List Pool → ℕ
place key [] = 0
place key (p ∷ pools) = if text_eq p.key key then 0 else suc (place key pools)

-- A change of a key's pool, seen from the places.
pub at_pool-place :
    (key : Text) (change : Pool → Pool) (p : Pool) (pools : List Pool)
    → find_pool key pools ≡ some p
    → (pool_at (place key pools) (at_pool key change pools) ≡ some (change p))
      × ((i : ℕ) (r : Pool)
          → pool_at i (at_pool key change pools) ≡ some r
          → (((i == place key pools) ≡ true) × (r ≡ change p) × (pool_at i pools ≡ some p))
            ⊎ (((i == place key pools) ≡ false) × (pool_at i pools ≡ some r)))
unfolding place pool_at at_pool find_pool
at_pool-place key change p [] f = absurd (ground arith)
at_pool-place key change p (q ∷ pools) f = elim (Bool-cases (text_eq q.key key)) [
  | inl e ↦ (ground arith, here e)
  | inr e ↦
      let (a, others) = at_pool-place key change p pools (ground arith) in (rw e a, there e others)
]
  where
    here :
        text_eq q.key key ≡ true
        → (i : ℕ) (r : Pool) → pool_at i (at_pool key change (q ∷ pools)) ≡ some r
        → (((i == place key (q ∷ pools)) ≡ true)
            × (r ≡ change p)
            × (pool_at i (q ∷ pools) ≡ some p))
          ⊎ (((i == place key (q ∷ pools)) ≡ false) × (pool_at i (q ∷ pools) ≡ some r))
    here e zero r h = inl (ground arith, ground arith, ground arith)
    here e (suc i) r h = inr (ground arith, ground arith)

    there :
        text_eq q.key key ≡ false
        → ((i : ℕ) (r : Pool)
            → pool_at i (at_pool key change pools) ≡ some r
            → (((i == place key pools) ≡ true) × (r ≡ change p) × (pool_at i pools ≡ some p))
              ⊎ (((i == place key pools) ≡ false) × (pool_at i pools ≡ some r)))
        → (i : ℕ) (r : Pool) → pool_at i (at_pool key change (q ∷ pools)) ≡ some r
        → (((i == place key (q ∷ pools)) ≡ true)
            × (r ≡ change p)
            × (pool_at i (q ∷ pools) ≡ some p))
          ⊎ (((i == place key (q ∷ pools)) ≡ false) × (pool_at i (q ∷ pools) ≡ some r))
    there e others zero r h = inr (ground arith, ground arith)
    there e others (suc i) r h = elim (others i r (ground arith)) [
      | inl (a, b, c) ↦ inl (ground arith, b, c)
      | inr (a, b) ↦ inr (ground arith, b)
    ]

-- A new pool, seen from the places.
pub append-place :
    (key : Text) (q : Pool) (pools : List Pool)
    → find_pool key pools ≡ none
    → (pool_at (place key pools) (pools ++ q ∷ []) ≡ some q)
      × ((i : ℕ) (r : Pool)
          → pool_at i (pools ++ q ∷ []) ≡ some r
          → (((i == place key pools) ≡ true) × (r ≡ q))
            ⊎ (((i == place key pools) ≡ false) × (pool_at i pools ≡ some r)))
unfolding place pool_at find_pool
append-place key q [] f = (refl, only)
  where
    only :
        (i : ℕ) (r : Pool)
        → pool_at i (q ∷ []) ≡ some r
        → (((i == 0) ≡ true) × (r ≡ q)) ⊎ (((i == 0) ≡ false) × (pool_at i [] ≡ some r))
    only zero r h = inl (refl, ground arith)
    only (suc i) r h = inr (ground arith, h)
append-place key q (p ∷ pools) f =
    let e : text_eq p.key key ≡ false = ground arith in
    let (a, others) = append-place key q pools (ground arith) in (rw e a, there e others)
  where
    there :
        text_eq p.key key ≡ false
        → ((i : ℕ) (r : Pool)
            → pool_at i (pools ++ q ∷ []) ≡ some r
            → (((i == place key pools) ≡ true) × (r ≡ q))
              ⊎ (((i == place key pools) ≡ false) × (pool_at i pools ≡ some r)))
        → (i : ℕ) (r : Pool) → pool_at i (p ∷ pools ++ q ∷ []) ≡ some r
        → (((i == place key (p ∷ pools)) ≡ true) × (r ≡ q))
          ⊎ (((i == place key (p ∷ pools)) ≡ false) × (pool_at i (p ∷ pools) ≡ some r))
    there e others zero r h = inr (ground arith, ground arith)
    there e others (suc i) r h = elim (others i r h) [
      | inl (a, b) ↦ inl (ground arith, b)
      | inr (a, b) ↦ inr (ground arith, b)
    ]

pub at_pool-append :
    (key : Text) (change : Pool → Pool) (q : Pool) (pools : List Pool)
    → find_pool key pools ≡ none
    → q.key ≡ key
    → at_pool key change (pools ++ q ∷ []) ≡ pools ++ change q ∷ []
unfolding at_pool find_pool
at_pool-append key change q [] f e = ground (arith, text_eq_iff q.key key)
at_pool-append key change q (p ∷ pools) f e = ground (arith, at_pool-append key change q pools)

pub at_pool-at_pool :
    (key : Text) (f g : Pool → Pool) (pools : List Pool)
    → ((p : Pool) → (g p).key ≡ p.key)
    → at_pool key f (at_pool key g pools) ≡ at_pool key (λ p. f (g p)) pools
unfolding at_pool
at_pool-at_pool key f g [] h = refl
at_pool-at_pool key f g (p ∷ pools) h = ground (arith, h p, at_pool-at_pool key f g pools h)
