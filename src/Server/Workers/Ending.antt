-- ===== src/Server/Workers/Ending.antt =====
-- The end of the channel's readers (`watch` of ooo.go) after the storage was closed.
use ooo.Base.{
  ℕ, zero, suc, ◌+◌, ◌-◌, ◌*◌, ◌≤◌, ◌<◌, Bool, false, List, [], ◌∷◌, none, some, Text, ◌≡◌, refl,
  sym, ap, subst, inl, inr, if◌then◌else◌, arith, Bool-cases, Option-cases, ℤ, ◌==◌, length,
}
use ooo.Meta.{Codec}
use ooo.Memory.State.{Db, returned}
use ooo.Memory.Life.{close}
use ooo.Stream.{Pool, Differ, set_pool_cache}
use ooo.Server.{Server}
use ooo.Server.Workers.{
  Worker, waiting, visiting, holding, checking, ended, pool_at, set_pool_at, visit, advance, System,
  turn, run_turns,
}
use ooo.Server.Workers.Places.{update_pool-pools}
use ooo.Server.Workers.Visits.{Visited, visit-Visited, advance-storage}

pool_at-lt : (i : ℕ) (p : Pool) (pools : List Pool) → pool_at i pools ≡ some p → i < length pools
unfolding pool_at
pool_at-lt i p [] h = absurd (ground arith)
pool_at-lt zero p (q ∷ pools) h = omega arith
pool_at-lt (suc i) p (q ∷ pools) h = omega (arith, pool_at-lt i p pools h)

length-set_pool_at :
    (i : ℕ) (q : Pool) (pools : List Pool) → length (set_pool_at i q pools) ≡ length pools
unfolding set_pool_at
length-set_pool_at i q [] = refl
length-set_pool_at zero q (p ∷ pools) = refl
length-set_pool_at (suc i) q (p ∷ pools) = ap suc (length-set_pool_at i q pools)

-- A bound on the steps that a reader has left, with a number of pools.
unfoldable remaining : ℕ → Worker → ℕ
remaining pools waiting = 2
remaining pools (visiting key i) = 2 * (pools - i) + 2
remaining pools (holding key i body) = 2 * (pools - suc i) + 3
remaining pools checking = 1
remaining pools ended = 0

remaining-le : (pools : ℕ) (w : Worker) → remaining pools w ≤ 2 * pools + 3
unfolding remaining
remaining-le pools waiting = omega arith
remaining-le pools (visiting key i) = omega arith
remaining-le pools (holding key i body) = omega arith
remaining-le pools checking = omega arith
remaining-le pools ended = omega arith

remaining-ended : (pools : ℕ) (w : Worker) → remaining pools w ≡ 0 → w ≡ ended
unfolding remaining
remaining-ended pools waiting h = absurd (omega arith)
remaining-ended pools (visiting key i) h = absurd (omega arith)
remaining-ended pools (holding key i body) h = absurd (omega arith)
remaining-ended pools checking h = absurd (omega arith)
remaining-ended pools ended h = refl

-- A storage that was closed.
abbrev IsClosed : Db → Type 0
IsClosed db = (db.storage ≡ some false) × (db.watcher ≡ none)

close-IsClosed : (db : Db) → (close db).0 ≡ returned tt → IsClosed (close db).1
unfolding close
close-IsClosed db h = ground arith

module _ (codec : Codec) (d : Differ) (deliver : ℕ → Bool) where
  visit-remaining :
      (app : Server) (key : Text) (i : ℕ) (w : Worker)
      → Visited codec app key i w
      → remaining (length app.stream.pools) w < remaining (length app.stream.pools) (visiting key i)
  unfolding remaining
  visit-remaining app key i w (Visited.behind e) = omega arith
  visit-remaining app key i w (Visited.passed q e f) =
      omega (arith, pool_at-lt i q app.stream.pools e)
  visit-remaining app key i w (Visited.held q body e r) =
      omega (arith, pool_at-lt i q app.stream.pools e)

  advance-remaining :
      (now : ℤ) (app : Server) (w : Worker)
      → IsClosed app.storage
      → remaining (length app.stream.pools) (advance codec d deliver now app w).1
        ≤ remaining (length app.stream.pools) w - 1
  advance-remaining now app waiting c = unfold advance remaining in ground (arith, c.1)
  advance-remaining now app (visiting key i) c =
      unfold advance in
      omega
        (arith, visit-remaining app key i (visit codec key i app) (visit-Visited codec app key i))
  advance-remaining now app (holding key i body) c = unfold advance remaining in ground arith
  advance-remaining now app checking c = unfold advance remaining in ground (arith, c.0)
  advance-remaining now app ended c = unfold advance remaining in omega arith

  advance-length :
      (now : ℤ) (app : Server) (w : Worker)
      → length (advance codec d deliver now app w).0.stream.pools ≡ length app.stream.pools
  unfolding advance
  advance-length now app waiting = ground arith
  advance-length now app (visiting key i) = refl
  advance-length now app (holding key i body) = elim (Option-cases (pool_at i app.stream.pools)) [
    | inl e ↦ ground arith
    | inr (q, e) ↦ ground (
      arith,
      ap length (update_pool-pools d deliver now i q body app.stream),
      length-set_pool_at i (set_pool_cache body now q) app.stream.pools,
    )
  ]
  advance-length now app checking = ground arith
  advance-length now app ended = refl

  -- The steps of a reader in a schedule.
  abbrev pub turns : ℕ → List (ℕ × ℤ) → ℕ
  turns i [] = 0
  turns i ((j, now) ∷ schedule) = if j == i then suc (turns i schedule) else turns i schedule

  abbrev pools_of : System → ℕ
  pools_of s = length s.app.stream.pools

  turn-remaining :
      (i j : ℕ) (now : ℤ) (s : System)
      → IsClosed s.app.storage
      → remaining (pools_of s) ((turn codec d deliver j now s).workers i) ≤ (
          if j == i
          then remaining (pools_of s) (s.workers i) - 1
          else remaining (pools_of s) (s.workers i))
  turn-remaining i j now s c = elim (Bool-cases (j == i)) [
    | inl e ↦
        let same : j ≡ i = ground arith in
        unfold turn in
        rw e (
          subst
            (λ k.
              remaining (pools_of s) (advance codec d deliver now s.app (s.workers j)).1
              ≤ remaining (pools_of s) (s.workers k) - 1)
            same (advance-remaining now s.app (s.workers j) c))
    | inr e ↦ unfold turn in rw e (omega arith)
  ]

  run-ended :
      (i : ℕ) (schedule : List (ℕ × ℤ)) (s : System)
      → IsClosed s.app.storage
      → remaining (pools_of s) (s.workers i) ≤ turns i schedule
      → (run_turns codec d deliver schedule s).workers i ≡ ended
  unfolding run_turns
  run-ended i [] s c h = remaining-ended (pools_of s) (s.workers i) (omega (arith, h))
  run-ended i ((j, now) ∷ schedule) s c h =
      let same : pools_of (turn codec d deliver j now s) ≡ pools_of s =
        unfold turn in advance-length now s.app (s.workers j) in
      run-ended i schedule (turn codec d deliver j now s)
        (unfold turn in
          subst IsClosed (sym (advance-storage codec d deliver now s.app (s.workers j))) c)
        (subst (λ l. remaining l ((turn codec d deliver j now s).workers i) ≤ turns i schedule)
          (sym same) (ground (arith, turn-remaining i j now s c, h)))

  -- After a `Close` of the storage that returned, each reader has ended as soon as it took twice
  -- as many steps as there are pools, and three more, wherever it stood and whatever steps the
  -- other readers take in between.
  pub close_lem :
      (i : ℕ) (schedule : List (ℕ × ℤ)) (db : Db) (s : System)
      → (close db).0 ≡ returned tt
      → s.app.storage ≡ (close db).1
      → 2 * length s.app.stream.pools + 3 ≤ turns i schedule
      → (run_turns codec d deliver schedule s).workers i ≡ ended
  close_lem i schedule db s r e enough =
      run-ended i schedule s (subst IsClosed (sym e) (close-IsClosed db r))
        (omega (arith, enough, remaining-le (pools_of s) (s.workers i)))
