-- ===== src/Server/Workers/Visits.antt =====
-- What the steps of one reader in `Broadcast` (stream/stream.go) do to the pools' caches: each pool
-- holds what is read, or the reader is on its way to it, or an event waits that concerns it.
use ooo.Base.{
  ℕ, suc, ◌≤◌, Bool, true, List, Option, none, some, Text, ◌≡◌, ◌≢◌, refl, ◌∙◌, sym, ap, subst, ◌⊎◌,
  inl, inr, arith, Bool-cases, Option-cases, ℤ, ◌==◌,
}
use ooo.Key.{peer}
use ooo.Meta.{Codec}
use ooo.Memory.State.{Event}
use ooo.Stream.{Stream, Pool, Differ}
use ooo.Server.{Server, filtered_read, get_filtered_data}
use ooo.Server.Coherence.{Shows}
use ooo.Server.Workers.{
  Worker, waiting, visiting, holding, checking, ended, pool_at, visit, advance,
}
use ooo.Server.Workers.Places.{is_due, pool_at-le}

-- The reader is on its way to the pool.
abbrev pub IsAhead : ℕ → ℕ → Pool → Text → Type 0
IsAhead j i p key = (j ≤ i) × (peer p.key key ≡ true)

-- The pool's cache holds what is read, or the reader will see to it.
abbrev pub Settled : Option Text → Worker → ℕ → Pool → Type 0
Settled read (visiting key j) i p = Shows p.cache read ⊎ IsAhead j i p key
Settled read (holding key j body) i p =
    ((i ≡ j) × (read ≡ some body)) ⊎ ((i ≢ j) × (Shows p.cache read ⊎ IsAhead (suc j) i p key))
Settled read waiting i p = Shows p.cache read
Settled read checking i p = Shows p.cache read
Settled read ended i p = Shows p.cache read

module _ (codec : Codec) where
  abbrev pub Follows : Server → List Event → Worker → ℕ → Pool → Type 0
  Follows app events w i p =
      (is_due p.key events ≡ true) ⊎ Settled (filtered_read codec app p.key) w i p

  pub read-stream :
      (app : Server) (s : Stream) (key : Text)
      → filtered_read codec (record app { stream = s }) key ≡ filtered_read codec app key
  unfolding get_filtered_data
  read-stream app s key = refl

  -- How a visit ends: behind the last pool, at the next one, or with the data of the pool.
  pub data Visited (app : Server) (key : Text) (j : ℕ) : Worker → Type 0 where
    behind : pool_at j app.stream.pools ≡ none → Visited app key j checking
    passed :
        (q : Pool)
        → pool_at j app.stream.pools ≡ some q
        → (peer q.key key ≡ true → filtered_read codec app q.key ≡ none)
        → Visited app key j (visiting key (suc j))
    held :
        (q : Pool) (body : Text)
        → pool_at j app.stream.pools ≡ some q
        → filtered_read codec app q.key ≡ some body
        → Visited app key j (holding key j body)

  pub visit-Visited :
      (app : Server) (key : Text) (j : ℕ) → Visited app key j (visit codec key j app)
  visit-Visited app key j = elim (Option-cases (pool_at j app.stream.pools)) [
    | inl e ↦
        let w : visit codec key j app ≡ checking = unfold visit in ground arith in
        subst (Visited app key j) (sym w) (behind e)
    | inr (q, e) ↦ elim (Bool-cases (peer q.key key)) [
      | inr f ↦
          let w : visit codec key j app ≡ visiting key (suc j) = unfold visit in ground arith in
          subst (Visited app key j) (sym w) (passed q e (λ t. absurd (ground arith)))
      | inl f ↦ elim (Option-cases (filtered_read codec app q.key)) [
        | inl r ↦
            let w : visit codec key j app ≡ visiting key (suc j) = unfold visit in ground arith in
            subst (Visited app key j) (sym w) (passed q e (λ _. r))
        | inr (body, r) ↦
            let w : visit codec key j app ≡ holding key j body = unfold visit in ground arith in
            subst (Visited app key j) (sym w) (held q body e r)
      ]
    ]
  ]

  same_pool :
      (app : Server) (i j : ℕ) (p q : Pool)
      → (i == j) ≡ true
      → pool_at i app.stream.pools ≡ some p
      → pool_at j app.stream.pools ≡ some q
      → q ≡ p
  same_pool app i j p q e at at' = ground arith

  pub visit-Settled :
      (app : Server) (key : Text) (j i : ℕ) (p : Pool) (w : Worker)
      → Visited app key j w
      → pool_at i app.stream.pools ≡ some p
      → Settled (filtered_read codec app p.key) (visiting key j) i p
      → Settled (filtered_read codec app p.key) w i p
  visit-Settled app key j i p w (behind e) at (inl s) = s
  visit-Settled app key j i p w (behind e) at (inr a) =
      absurd (pool_at-le i j p app.stream.pools a.0 at e)
  visit-Settled app key j i p w (passed q e f) at (inl s) = inl s
  visit-Settled app key j i p w (passed q e f) at (inr a) = elim (Bool-cases (i == j)) [
    | inl same ↦ inl (
        subst (Shows p.cache)
          (sym (
            ap (λ t. filtered_read codec app t.key) (sym (same_pool app i j p q same at e))
            ∙ f (ap (λ t. peer t.key key) (same_pool app i j p q same at e) ∙ a.1)))
          tt)
    | inr other ↦ inr (ground (arith, a.0), a.1)
  ]
  visit-Settled app key j i p w (held q body e r) at h = elim (Bool-cases (i == j)) [
    | inl same ↦ inl (
      ground arith,
      ap (λ t. filtered_read codec app t.key) (sym (same_pool app i j p q same at e)) ∙ r,
    )
    | inr other ↦ inr (ground arith, on_the_way (ground arith) h)
  ]
    where
      on_the_way :
          i ≢ j
          → Settled (filtered_read codec app p.key) (visiting key j) i p
          → Shows p.cache (filtered_read codec app p.key) ⊎ IsAhead (suc j) i p key
      on_the_way n (inl s) = inl s
      on_the_way n (inr a) = inr (omega (arith, n, a.0), a.1)

  module _ (d : Differ) (deliver : ℕ → Bool) where
    pub advance-storage :
        (now : ℤ) (app : Server) (w : Worker)
        → (advance codec d deliver now app w).0.storage ≡ app.storage
    unfolding advance
    advance-storage now app waiting = ground arith
    advance-storage now app (visiting key i) = refl
    advance-storage now app (holding key i body) = ground arith
    advance-storage now app checking = ground arith
    advance-storage now app ended = refl
