-- ===== src/Stream/Subscribers.antt =====
-- The subscriptions of a stream (stream/stream.go) against an abstract account of them: for each
-- key, the connections that were opened and not closed, in order.
use ooo.Base.{
  ℕ, Bool, true, false, List, [], ◌∷◌, ◌++◌, Option, none, some, Text, text_eq, text_eq_iff, ◌≡◌,
  refl, ◌∙◌, sym, subst, ap, if◌then◌else◌, arith, inl, inr, ℤ, Among,
}
use ooo.Stream
use ooo.Stream.{Stream, Pool, Differ, send_all, init_clock, find_pool, open_connection}
use ooo.Stream.Pools.{connections_of, has_pool, open-connections, open-has_pool}
use ooo.Stream.Broadcast.{wrote, send_all-wrote}
use ooo.Stream.Sessions.{
  without, close-connections, refresh-connections, refresh-has_pool, broadcast-connections,
  broadcast-has_pool,
}

-- The calls that change a stream, with the clock's readings, the results of reads, and which
-- connections can be written to.
pub data Call : Type 0 where
  enter : Text → ℕ → Call
  leave : Text → ℕ → Call
  refresh : Text → Option Text → ℤ → Call
  broadcast : (ℕ → Bool) → (Text → Option Text) → (Text → ℤ) → Text → Call
  broadcast_clock : (ℕ → Bool) → Text → Call

-- The account of a key.
abbrev pub subscribers : Text → List Call → List ℕ → List ℕ
subscribers j [] l = l
subscribers j (enter key client ∷ calls) l =
    subscribers j calls (if text_eq key j then l ++ client ∷ [] else l)
subscribers j (leave key client ∷ calls) l =
    subscribers j calls (if text_eq key j then without client l else l)
subscribers j (_ ∷ calls) l = subscribers j calls l

-- A connection is closed only under a key that was opened before; the clock is broadcast only when
-- its pool is there. The list is that of the keys that have pools.
abbrev pub Legal : List Text → List Call → Type 0
Legal keys [] = Unit
Legal keys (enter key client ∷ calls) = Legal (key ∷ keys) calls
Legal keys (leave key client ∷ calls) = Among key keys × Legal keys calls
Legal keys (broadcast_clock deliver time ∷ calls) = Among [] keys × Legal keys calls
Legal keys (_ ∷ calls) = Legal keys calls

-- A stream that `InitClock` has prepared.
abbrev pub new_stream : Bool → Bool → Stream
unfolding init_clock
new_stream force no_patch =
    init_clock
      (record { force_patch = force; no_patch = no_patch; pools = []; written = []; closed = [] })

module _ (d : Differ) where
  -- A call; `none` is a panic.
  unfoldable pub step : Call → Stream → Option Stream
  step (enter key client) s = some (Stream.open_connection key client s)
  step (leave key client) s = Stream.close key client s
  step (refresh path get now) s = some (Stream.refresh path get now s).1
  step (broadcast deliver get now path) s = some (Stream.broadcast d deliver get now path s)
  step (broadcast_clock deliver time) s = Stream.broadcast_clock deliver time s

  unfoldable pub run : List Call → Stream → Option Stream
  run [] s = some s
  run (call ∷ calls) s = elim (step call s) [ none ↦ none | some s' ↦ run calls s' ]

  -- Every key of the list has a pool.
  abbrev HasPools : List Text → Stream → Type 0
  HasPools keys s = (k : Text) → Among k keys → has_pool k s ≡ true

  -- The stream that a run leaves, and its subscriptions.
  abbrev Accounted : List Call → Stream → Type 0
  Accounted calls s =
      (s' : Stream) × (run calls s ≡ some s')
      × ((j : Text) → connections_of j s' ≡ subscribers j calls (connections_of j s))

  broadcast_clock-pools_of :
      (deliver : ℕ → Bool) (time : Text) (s : Stream) (pools : List Pool)
      → s.pools ≡ pools
      → has_pool [] s ≡ true
      → (s' : Stream) × (Stream.broadcast_clock deliver time s ≡ some s') × (s'.pools ≡ s.pools)
  unfolding Stream.broadcast_clock find_pool wrote
  broadcast_clock-pools_of deliver time s [] e h = absurd (ground arith)
  broadcast_clock-pools_of deliver time s (clock ∷ pools) e h = (
    send_all deliver time clock.connections s,
    subst
        (λ l.
          (elim l [ [] ↦ none | c ∷ _ ↦ some (send_all deliver time c.connections s) ])
          ≡ some (send_all deliver time clock.connections s))
        (sym e) refl,
    ap (λ t. t.pools) (send_all-wrote deliver time clock.connections s),
  )

  broadcast_clock-Accounted :
      (deliver : ℕ → Bool) (time : Text) (s : Stream)
      → has_pool [] s ≡ true
      → (s' : Stream) × (Stream.broadcast_clock deliver time s ≡ some s')
        × ((j : Text) → connections_of j s' ≡ connections_of j s)
        × ((j : Text) → has_pool j s' ≡ has_pool j s)
  broadcast_clock-Accounted deliver time s h =
      let (s', e, p) = broadcast_clock-pools_of deliver time s s.pools refl h in
      (
        s',
        e,
        λ j. ap (λ l. elim (find_pool j l) [ none ↦ [] | some p ↦ p.connections ]) p,
        λ j. ap (λ l. elim (find_pool j l) [ none ↦ false | some _ ↦ true ]) p,
      )

  -- A call that goes well, then the rest.
  run-next :
      (call : Call) (calls : List Call) (s s' : Stream) (account : Text → List ℕ)
      → step call s ≡ some s'
      → ((j : Text) → connections_of j s' ≡ account j)
      → (s'' : Stream) × (run calls s' ≡ some s'')
        × ((j : Text) → connections_of j s'' ≡ subscribers j calls (connections_of j s'))
      → (s'' : Stream) × (run (call ∷ calls) s ≡ some s'')
        × ((j : Text) → connections_of j s'' ≡ subscribers j calls (account j))
  unfolding run
  run-next call calls s s' account e c (s'', r, a) =
      (s'', rw (e, run) r, λ j. a j ∙ ap (subscribers j calls) (c j))

  Among-HasPools :
      (keys : List Text) (key : Text) (client : ℕ) (s : Stream)
      → HasPools keys s
      → HasPools (key ∷ keys) (open_connection key client s)
  Among-HasPools keys key client s h k (inl e) =
      ground (arith, text_eq_iff key k, open-has_pool key k client s)
  Among-HasPools keys key client s h k (inr a) = ground (arith, h k a, open-has_pool key k client s)

  -- Calls that close only what has a pool never panic, and for each key the connections that
  -- its pool has then are those of the account.
  run-HasPools :
      (calls : List Call) (keys : List Text) (s : Stream)
      → Legal keys calls
      → HasPools keys s
      → Accounted calls s
  unfolding run step
  run-HasPools [] keys s l h = (s, refl, λ j. refl)
  run-HasPools (enter key client ∷ calls) keys s l h =
      let s' = open_connection key client s in
      run-next (enter key client) calls s s' _ refl (λ j. open-connections key j client s)
        (run-HasPools calls (key ∷ keys) s' l (Among-HasPools keys key client s h))
  run-HasPools (leave key client ∷ calls) keys s l h =
      let (s', e, c, p) = close-connections key client s (h key l.0) in
      run-next (leave key client) calls s s' _ e c
        (run-HasPools calls keys s' l.1 (λ k a. p k ∙ h k a))
  run-HasPools (refresh path get now ∷ calls) keys s l h =
      run-next (refresh path get now) calls s _ _ refl (refresh-connections path get now s)
        (run-HasPools calls keys _ l (λ k a. refresh-has_pool path get now s k (h k a)))
  run-HasPools (broadcast deliver get now path ∷ calls) keys s l h =
      run-next (broadcast deliver get now path) calls s _ _ refl
        (broadcast-connections d deliver get now path s)
        (run-HasPools calls keys _ l (λ k a. broadcast-has_pool d deliver get now path s k ∙ h k a))
  run-HasPools (broadcast_clock deliver time ∷ calls) keys s l h =
      let (s', e, c, p) = broadcast_clock-Accounted deliver time s (h [] l.0) in
      run-next (broadcast_clock deliver time) calls s s' _ e c
        (run-HasPools calls keys s' l.1 (λ k a. p k ∙ h k a))

  new_stream-HasPools : (force no_patch : Bool) → HasPools ([] ∷ []) (new_stream force no_patch)
  unfolding find_pool init_clock
  new_stream-HasPools force no_patch k (inl e) = ground (arith, text_eq_iff [] k)
  new_stream-HasPools force no_patch k (inr a) = absurd a

  new_stream-connections :
      (force no_patch : Bool) (j : Text) → connections_of j (new_stream force no_patch) ≡ []
  unfolding find_pool init_clock
  new_stream-connections force no_patch j = ground arith

  -- On a stream that was just made ready, calls that close a connection only under a key that was
  -- opened before (and send the clock's time only when its pool is there, as it is) never panic,
  -- and then the pool of each key has the connections that were opened under the key and not
  -- closed since, in order, whatever was broadcast or refreshed meanwhile.
  pub run_lem :
      (calls : List Call) (force no_patch : Bool)
      → Legal ([] ∷ []) calls
      → (s' : Stream) × (run calls (new_stream force no_patch) ≡ some s')
        × ((j : Text) → connections_of j s' ≡ subscribers j calls [])
  run_lem calls force no_patch l =
      let (s', r, a) =
        run-HasPools calls ([] ∷ []) (new_stream force no_patch) l
          (new_stream-HasPools force no_patch) in
      (s', r, λ j. a j ∙ ap (subscribers j calls) (new_stream-connections force no_patch j))
