-- ===== src/Server/Workers/Advances.antt =====
-- The steps of one reader in `Broadcast` (stream/stream.go), for all the pools at some places:
-- what they were on the way to they hold.
use ooo.Base.{
  ℕ, suc, Bool, List, none, some, Text, ◌≡◌, ◌≢◌, refl, ◌∙◌, sym, subst, inl, inr, if◌then◌else◌,
  arith, Bool-cases, Option-cases, ℤ,
}
use ooo.Meta.{Codec}
use ooo.Memory.State.{Event}
use ooo.Stream.{Pool, Differ, set_pool_cache}
use ooo.Server.{Server}
use ooo.Server.Coherence.{Shows}
use ooo.Server.Workers.{
  Worker, waiting, visiting, holding, checking, ended, pool_at, set_pool_at, update_pool, visit,
  advance,
}
use ooo.Server.Workers.Places.{pool_at-set, update_pool-pools}
use ooo.Server.Workers.Visits.{Settled, Follows, read-stream, visit-Visited, visit-Settled}

module _ (codec : Codec) where
  -- `Watched` are the places of the pools that are looked at.
  module _ (d : Differ) (deliver : ℕ → Bool) (Watched : ℕ → Type 0) where
    abbrev pub Pools : Server → List Event → Worker → Type 0
    Pools app events w =
        (i : ℕ) (p : Pool)
        → Watched i
        → pool_at i app.stream.pools ≡ some p
        → Follows codec app events w i p

    module _ (now : ℤ) (app : Server) (events : List Event) (key : Text) (j : ℕ) (body : Text)
        (q : Pool) where
      abbrev applied : Server
      applied = record app { stream = update_pool d deliver now j q body app.stream }

      apply-same :
          Follows codec app events (holding key j body) j q
          → Follows codec applied events (visiting key (suc j)) j (set_pool_cache body now q)
      unfolding set_pool_cache
      apply-same (inl due) = inl due
      apply-same (inr (inl (e, r))) = inr (
          inl (
            subst (Shows (record { version = now; body = body }))
              (sym
                (read-stream codec app (update_pool d deliver now j q body app.stream) q.key ∙ r))
              refl))
      apply-same (inr (inr (n, s))) = absurd (n refl)

      apply-other :
          (i : ℕ) (p : Pool)
          → i ≢ j
          → Follows codec app events (holding key j body) i p
          → Follows codec applied events (visiting key (suc j)) i p
      apply-other i p n (inl due) = inl due
      apply-other i p n (inr (inl (e, r))) = absurd (n e)
      apply-other i p n (inr (inr (_, s))) = inr (
          subst (λ r. Settled r (visiting key (suc j)) i p)
            (sym (read-stream codec app (update_pool d deliver now j q body app.stream) p.key)) s)

      apply-Pools :
          pool_at j app.stream.pools ≡ some q
          → Pools app events (holding key j body)
          → Pools applied events (visiting key (suc j))
      apply-Pools e h i p le at =
          let at' : pool_at i (set_pool_at j (set_pool_cache body now q) app.stream.pools)
              ≡ some p =
            subst (λ t. pool_at i t ≡ some p) (update_pool-pools d deliver now j q body app.stream)
              at in
          elim (pool_at-set i j (set_pool_cache body now q) p app.stream.pools at') [
            | inl (same, new) ↦
                subst (Follows codec applied events (visiting key (suc j)) i) (sym new) (
                  subst
                    (λ t.
                      Follows codec applied events (visiting key (suc j)) t
                        (set_pool_cache body now q))
                    (sym same) (apply-same (h j q (subst Watched same le) e)))
            | inr (other, old) ↦ apply-other i p other (h i p le old)
          ]

    visit-Follows :
        (app : Server) (events : List Event) (key : Text) (j i : ℕ) (p : Pool)
        → pool_at i app.stream.pools ≡ some p
        → Follows codec app events (visiting key j) i p
        → Follows codec app events (visit codec key j app) i p
    visit-Follows app events key j i p at (inl due) = inl due
    visit-Follows app events key j i p at (inr s) = inr (
        visit-Settled codec app key j i p (visit codec key j app) (visit-Visited codec app key j) at
          s)

    gone-Follows :
        (app : Server) (events : List Event) (key : Text) (j : ℕ) (body : Text) (i : ℕ) (p : Pool)
        → pool_at j app.stream.pools ≡ none
        → pool_at i app.stream.pools ≡ some p
        → Follows codec app events (holding key j body) i p
        → Follows codec app events (visiting key (suc j)) i p
    gone-Follows app events key j body i p e at (inl due) = inl due
    gone-Follows app events key j body i p e at (inr (inl (same, _))) = absurd (cc (e, at, same))
    gone-Follows app events key j body i p e at (inr (inr (_, s))) = inr s

    pub advance-Pools :
        (now : ℤ) (app : Server) (events : List Event) (w : Worker)
        → Pools app events w
        → Pools (advance codec d deliver now app w).0 events (advance codec d deliver now app w).1
    advance-Pools now app events waiting h = elim (Option-cases app.storage.watcher) [
      | inl e ↦
          let w : advance codec d deliver now app waiting ≡ (app, checking) =
            unfold advance in ground arith in
          subst (λ t. Pools t.0 events t.1) (sym w) h
      | inr (_, e) ↦
          let w : advance codec d deliver now app waiting ≡ (app, waiting) =
            unfold advance in ground arith in
          subst (λ t. Pools t.0 events t.1) (sym w) h
    ]
    advance-Pools now app events (visiting key j) h =
        unfold advance in (λ i p le at. visit-Follows app events key j i p at (h i p le at))
    advance-Pools now app events (holding key j body) h =
        elim (Option-cases (pool_at j app.stream.pools)) [
          | inl e ↦
              let w : advance codec d deliver now app (holding key j body)
                  ≡ (app, visiting key (suc j)) =
                unfold advance in ground arith in
              subst (λ t. Pools t.0 events t.1) (sym w)
                (λ i p le at. gone-Follows app events key j body i p e at (h i p le at))
          | inr (q, e) ↦
              let w : advance codec d deliver now app (holding key j body)
                  ≡ (applied now app events key j body q, visiting key (suc j)) =
                unfold advance in ground arith in
              subst (λ t. Pools t.0 events t.1) (sym w)
                (apply-Pools now app events key j body q e h)
        ]
    advance-Pools now app events checking h = elim (Option-cases app.storage.storage) [
      | inl e ↦
          let w : advance codec d deliver now app checking ≡ (app, checking) =
            unfold advance in ground arith in
          subst (λ t. Pools t.0 events t.1) (sym w) h
      | inr (active, e) ↦
          let w : advance codec d deliver now app checking
              ≡ (app, if active then waiting else ended) =
            unfold advance in ground arith in
          subst (λ t. Pools t.0 events t.1) (sym w)
            (elim (Bool-cases active) [ inl a ↦ rw a h | inr a ↦ rw a h ])
    ]
    advance-Pools now app events ended h = unfold advance in h
