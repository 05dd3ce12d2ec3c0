-- ===== src/Server/Workers/Alone.antt =====
-- A reader of the channel whose steps no other step comes between, against `watch` as one step: the
-- small steps add up to it.
use mathlib.Core.List.{append-nil, append_assoc}
use ooo.Base.{
  ℕ, suc, Bool, true, false, List, [], ◌∷◌, ◌++◌, Option, none, some, Text, ◌≡◌, refl, ◌∙◌, sym, ap,
  subst, inl, inr, arith, Bool-cases, Option-cases, ℤ, length, is_empty,
}
use ooo.Key.{peer}
use ooo.Meta.{Codec}
use ooo.Stream.{Stream, Pool, Differ, set_pool_cache, broadcast_loop, broadcast}
use ooo.Server.{Server, filtered_read, watch}
use ooo.Server.Workers.{
  Worker, Work, visiting, holding, checking, pool_at, set_pool_at, update_pool, received, visit,
  advance,
}
use ooo.Server.Workers.Places.{update_pool-pools}
use ooo.Server.Workers.Visits.{read-stream}
use ooo.Server.Workers.Loop.{
  pool_at-append, pool_at-end, set_pool_at-append, loop, loop-skip, loop-update,
}

module _ (codec : Codec) (d : Differ) (deliver : ℕ → Bool) where
  -- The steps of one reader, with the clock's readings.
  unfoldable pub run_alone : List ℤ → Server → Worker → Work
  run_alone [] app w = (app, w)
  run_alone (now ∷ times) app w =
      let next = advance codec d deliver now app w in run_alone times next.0 next.1

module _ (codec : Codec) (d : Differ) (deliver : ℕ → Bool) (clock : Text → ℤ) (key : Text)
    (app : Server) where
  abbrev with_stream : Stream → Server
  with_stream s = record app { stream = s }

  -- The steps from a place in the loop, on a stream, that end with another one.
  abbrev Ends : Stream → Worker → Stream → Type 0
  Ends s w s' =
      (times : List ℤ) × (run_alone codec d deliver times (with_stream s) w
        ≡ (with_stream s', checking))

  step-Ends :
      (now : ℤ) (s1 s2 s3 : Stream) (w w' : Worker)
      → advance codec d deliver now (with_stream s1) w ≡ (with_stream s2, w')
      → Ends s2 w' s3
      → Ends s1 w s3
  unfolding run_alone
  step-Ends now s1 s2 s3 w w' e (times, h) =
      (now ∷ times, ap (λ t. run_alone codec d deliver times t.0 t.1) e ∙ h)

  abbrev read_key : Text → Option Text
  read_key = filtered_read codec app

  length-next : (done : List Pool) (p : Pool) → length (done ++ p ∷ []) ≡ suc (length done)
  length-next [] p = refl
  length-next (q ∷ done) p = ap suc (length-next done p)

  abbrev stopped : Stream → List Pool → Work
  stopped s pools = (with_stream (record s { pools = pools }), checking)

  -- The steps of a visit, when the loop stands at a pool that is to be passed, or updated.
  module _ (done pools : List Pool) (p : Pool) (s : Stream) (e : s.pools ≡ done ++ p ∷ pools) where
    here : pool_at (length done) s.pools ≡ some p
    here = ap (pool_at (length done)) e ∙ pool_at-append done pools p

    passes :
        (now : ℤ)
        → (peer p.key key ≡ true → read_key p.key ≡ none)
        → advance codec d deliver now (with_stream s) (visiting key (length done))
          ≡ (with_stream s, visiting key (suc (length done)))
    passes now h = elim (Bool-cases (peer p.key key)) [
      | inl f ↦ unfold advance visit in ground (arith, here, read-stream codec app s p.key, h f)
      | inr f ↦ unfold advance visit in ground (arith, here)
    ]

    holds :
        (now : ℤ) (body : Text)
        → peer p.key key ≡ true
        → read_key p.key ≡ some body
        → advance codec d deliver now (with_stream s) (visiting key (length done))
          ≡ (with_stream s, holding key (length done) body)
    holds now body f r = unfold advance visit in ground (arith, here, read-stream codec app s p.key)

    applies :
        (now : ℤ) (body : Text)
        → advance codec d deliver now (with_stream s) (holding key (length done) body) ≡ (
          with_stream (update_pool d deliver now (length done) p body s),
          visiting key (suc (length done)),
        )
    applies now body = unfold advance in ground (arith, here)

    -- The pools after the update.
    updates :
        (now : ℤ) (body : Text)
        → (update_pool d deliver now (length done) p body s).pools
          ≡ (done ++ set_pool_cache body now p ∷ []) ++ pools
    updates now body =
        update_pool-pools d deliver now (length done) p body s
        ∙ ap (set_pool_at (length done) (set_pool_cache body now p)) e
        ∙ set_pool_at-append done pools p (set_pool_cache body now p)
        ∙ sym (append_assoc done (set_pool_cache body now p ∷ []) pools)

    -- The steps from here on, when the pool is passed.
    passed :
        (peer p.key key ≡ true → read_key p.key ≡ none)
        → Ends s
            (visiting key (length (done ++ p ∷ [])))
            (loop d deliver read_key clock key (done ++ p ∷ []) pools s)
        → Ends s (visiting key (length done)) (loop d deliver read_key clock key done (p ∷ pools) s)
    passed h rest =
        let after = loop d deliver read_key clock key (done ++ p ∷ []) pools s in
        subst (Ends s (visiting key (length done)))
          (sym (loop-skip d deliver read_key clock key done pools p s h))
          (step-Ends (clock key) s s after (visiting key (length done))
            (visiting key (suc (length done))) (passes (clock key) h)
            (subst (λ i. Ends s (visiting key i) after) (length-next done p) rest))

  loop-Ends :
      (done pools : List Pool) (s : Stream)
      → s.pools ≡ done ++ pools
      → Ends s (visiting key (length done)) (loop d deliver read_key clock key done pools s)
  loop-Ends done [] s e =
      let all : s.pools ≡ done = e ∙ append-nil done in
      let at : pool_at (length done) s.pools ≡ none =
        ap (pool_at (length done)) all ∙ pool_at-end done in
      step-Ends (clock key) s s (loop d deliver read_key clock key done [] s)
        (visiting key (length done)) checking (unfold advance visit in ground (arith, at))
        ([], unfold run_alone broadcast_loop in ap (stopped s) all)
  loop-Ends done (p ∷ pools) s e = elim (Bool-cases (peer p.key key)) [
    | inr f ↦
        passed done pools p s e (λ t. absurd (ground arith))
          (loop-Ends (done ++ p ∷ []) pools s (e ∙ sym (append_assoc done (p ∷ []) pools)))
    | inl f ↦ elim (Option-cases (read_key p.key)) [
      | inl r ↦
          passed done pools p s e (λ _. r)
            (loop-Ends (done ++ p ∷ []) pools s (e ∙ sym (append_assoc done (p ∷ []) pools)))
      | inr (body, r) ↦
          let now = clock p.key in
          let next = update_pool d deliver now (length done) p body s in
          let q = set_pool_cache body now p in
          let rest = loop-Ends (done ++ q ∷ []) pools next (updates done pools p s e now body) in
          subst (Ends s (visiting key (length done)))
            (sym (loop-update d deliver read_key clock key done pools p body s f r))
            (step-Ends now s s (loop d deliver read_key clock key (done ++ q ∷ []) pools next)
              (visiting key (length done)) (holding key (length done) body)
              (holds done pools p s e now body f r)
              (step-Ends now s next (loop d deliver read_key clock key (done ++ q ∷ []) pools next)
                (holding key (length done) body) (visiting key (suc (length done)))
                (applies done pools p s e now body)
                (subst
                  (λ i.
                    Ends next (visiting key i)
                      (loop d deliver read_key clock key (done ++ q ∷ []) pools next))
                  (length-next done q) rest)))
    ]
  ]

  -- The steps of a reader from the receive of an event to the test of the storage, with no other
  -- step between them and the clock's readings that `watch` has, lead to the server that `watch`
  -- makes.
  pub alone_lem :
      (first : Pool) (pools : List Pool)
      → is_empty key ≡ false
      → app.stream.pools ≡ first ∷ pools
      → (times : List ℤ) × (run_alone codec d deliver times app (received key)
          ≡ (watch codec d deliver clock key app, checking))
  alone_lem first pools n e =
      let whole : watch codec d deliver clock key app
          ≡ with_stream (loop d deliver read_key clock key (first ∷ []) pools app.stream) =
        unfold watch broadcast in ground arith in
      let begun : received key ≡ visiting key 1 = unfold received in ground arith in
      let (times, h) = loop-Ends (first ∷ []) pools app.stream e in
      (
        times,
        ap (run_alone codec d deliver times app) begun ∙ h ∙ sym (ap (λ t. (t, checking)) whole),
      )
