-- ===== src/Server/Workers/Single.antt =====
-- One reader of the channel (`watch` of ooo.go, `Workers` = 1), in every interleaving with writes:
-- the streams' caches keep up with the storage.
use ooo.Base.{
  ℕ, zero, suc, ◌≤◌, Bool, true, List, [], ◌∷◌, ◌++◌, Option, some, Text, ◌≡◌, refl, ◌∙◌, sym, ap,
  subst, ◌⊎◌, inl, inr, arith, Bool-cases, is_empty,
}
use ooo.Key.{peer}
use ooo.Meta.{Codec}
use ooo.Memory.State.{Event, Db}
use ooo.Memory.Writes.{Merge}
use ooo.Memory.Run.{step}
use ooo.Memory.Reads.{get}
use ooo.Stream.{Pool, Differ}
use ooo.Server.{Server, filtered_read}
use ooo.Server.Coherence.{Shows, IsCoherent, read-get}
use ooo.Server.Workers.{
  is_told, Worker, waiting, visiting, checking, pool_at, received, System, turn, Step, write,
  receive, work, Reach, start, later,
}
use ooo.Server.Workers.Told.{IsOpen, IsTold, step-IsTold}
use ooo.Server.Workers.Places.{is_due, is_due-append, is_due-remove}
use ooo.Server.Workers.Visits.{Settled, Follows, advance-storage}
use ooo.Server.Workers.Advances.{Pools, advance-Pools}

module _ (codec : Codec) where
  -- Behind the first pool, the cache of each pool holds what a read of its key gives.
  unfoldable pub IsCurrent : Server → Type 0
  IsCurrent app =
      (i : ℕ) (p : Pool) → 1 ≤ i → pool_at i app.stream.pools ≡ some p → IsCoherent codec app p

-- `Watched` are the places of the pools that are looked at.
module _ (codec : Codec) (merge : Merge) (d : Differ) (deliver : ℕ → Bool) (Watched : ℕ → Type 0)
    (behind : (i : ℕ) → Watched i → 1 ≤ i) where
  -- The storage is active, and each pool follows it.
  pub record Inv (quiet : List Text) (s : System) : Type 0 where
    pub events : List Event
    pub is_open : IsOpen s.app.storage quiet events
    pub pools : Pools codec d deliver Watched s.app events (s.workers 0)

  -- A storage whose reads are the same for the key of a pool.
  same-Follows :
      (app : Server) (db : Db) (events : List Event) (w : Worker) (i : ℕ) (p : Pool)
      → get codec p.key db.mem ≡ get codec p.key app.storage.mem
      → Follows codec app events w i p
      → Follows codec (record app { storage = db }) events w i p
  same-Follows app db events w i p g (inl due) = inl due
  same-Follows app db events w i p g (inr s) =
      inr (subst (λ r. Settled r w i p) (sym (read-get codec app db p.key g)) s)

  due_later :
      (app : Server) (events : List Event) (e : Event) (w : Worker) (i : ℕ) (p : Pool)
      → Follows codec app events w i p
      → Follows codec app (events ++ e ∷ []) w i p
  due_later app events e w i p (inl due) = inl (ground (arith, is_due-append p.key events (e ∷ [])))
  due_later app events e w i p (inr s) = inr s

  told-Follows :
      (app : Server) (db : Db) (events : List Event) (w : Worker) (i : ℕ) (p : Pool)
      → (t : IsTold codec app.storage events db) → Follows codec app events w i p
      → Follows codec (record app { storage = db }) (events ++ t.event ∷ []) w i p
  told-Follows app db events w i p t h = elim (Bool-cases (peer p.key t.event.key)) [
    | inl e ↦
        inl (unfold is_due in ground (arith, is_due-append p.key events (t.event ∷ []), t.named))
    | inr e ↦
        due_later (record app { storage = db }) events t.event w i p
          (same-Follows app db events w i p
            (ap (λ x. get codec p.key x.mem) t.state ∙ t.same p.key e) h)
  ]

  write-Inv :
      (quiet : List Text) (s : System) (db : Db)
      → (inv : Inv quiet s) → (db ≡ s.app.storage) ⊎ IsTold codec s.app.storage inv.events db
      → Inv quiet (record s { app = record s.app { storage = db } })
  write-Inv quiet s db inv (inl e) = record {
    events = inv.events;
    is_open = subst (λ x. IsOpen x quiet inv.events) (sym e) inv.is_open;
    pools = λ i p le at.
        same-Follows s.app db inv.events (s.workers 0) i p (ap (λ x. get codec p.key x.mem) e)
          (inv.pools i p le at);
  }
  write-Inv quiet s db inv (inr t) = record {
    events = inv.events ++ t.event ∷ [];
    is_open =
        subst (λ x. IsOpen x quiet (inv.events ++ t.event ∷ [])) (sym t.state)
          (record {
            active = inv.is_open.active;
            watcher = refl;
            unchanged = inv.is_open.unchanged;
          });
    pools = λ i p le at. told-Follows s.app db inv.events (s.workers 0) i p t (inv.pools i p le at);
  }

  module _ (app : Server) (before after : List Event) (e : Event) (i : ℕ) (p : Pool) where
    abbrev rest : Db
    rest = record app.storage { watcher = some (before ++ after) }

    start-Settled : (read : Option Text) → Shows p.cache read → Settled read (received e.key) i p
    start-Settled read s = elim (Bool-cases (is_empty e.key)) [
      | inl n ↦
          let w : received e.key ≡ checking = unfold received in ground arith in
          subst (λ w. Settled read w i p) (sym w) s
      | inr n ↦
          let w : received e.key ≡ visiting e.key 1 = unfold received in ground arith in
          subst (λ w. Settled read w i p) (sym w) (inl s)
    ]

    receive-Follows :
        1 ≤ i
        → Follows codec app (before ++ e ∷ after) waiting i p
        → Follows codec (record app { storage = rest }) (before ++ after) (received e.key) i p
    receive-Follows le (inl due) = elim (is_due-remove p.key before after e due) [
      | inl due' ↦ inl due'
      | inr (n, f) ↦
          let w : received e.key ≡ visiting e.key 1 = unfold received in ground arith in
          inr (
            subst (λ w. Settled (filtered_read codec (record app { storage = rest }) p.key) w i p)
              (sym w) (inr (le, f)))
    ]
    receive-Follows le (inr s) = inr (
        start-Settled (filtered_read codec (record app { storage = rest }) p.key)
          (subst (Shows p.cache) (sym (read-get codec app rest p.key refl)) s))

  pub Step-Inv :
      (quiet : List Text) (s t : System)
      → Step codec merge d deliver 1 s t
      → Inv quiet s
      → Inv quiet t
  Step-Inv quiet s t (write r told) inv = write-Inv quiet s (step codec merge r s.app.storage) inv (
      step-IsTold codec s.app.storage quiet inv.events inv.is_open merge r
        (subst (λ q. is_told q r ≡ true) inv.is_open.unchanged told))
  Step-Inv quiet s t (receive zero before after e lt idle w) inv = record {
    events = before ++ after;
    is_open = record {
      active = inv.is_open.active;
      watcher = refl;
      unchanged = inv.is_open.unchanged;
    };
    pools = λ i p le at. receive-Follows s.app before after e i p (behind i le) (
        subst (λ w'. Follows codec s.app (before ++ e ∷ after) w' i p) idle
          (subst (λ events. Follows codec s.app events (s.workers 0) i p)
            (ground (arith, inv.is_open.watcher)) (inv.pools i p le at)));
  }
  Step-Inv quiet s t (receive (suc i) before after e lt idle w) inv = absurd (omega arith)
  Step-Inv quiet s t (work zero now lt) inv =
      unfold turn in
      record {
        events = inv.events;
        is_open =
            subst (λ db. IsOpen db quiet inv.events)
              (sym (advance-storage codec d deliver now s.app (s.workers 0))) inv.is_open;
        pools = advance-Pools codec d deliver Watched now s.app inv.events (s.workers 0) inv.pools;
      }
  Step-Inv quiet s t (work (suc i) now lt) inv = absurd (omega arith)

  Reach-Inv :
      (quiet : List Text) (app : Server) (s : System)
      → Reach codec merge d deliver 1 app s
      → Inv quiet (record { app = app; workers = λ _. waiting })
      → Inv quiet s
  Reach-Inv quiet app s start inv = inv
  Reach-Inv quiet app t (later {s} r st) inv = Step-Inv quiet s t st (Reach-Inv quiet app s r inv)

-- When no event waits and the reader is back at the receive.
pub quiet-IsCoherent :
    (codec : Codec) (app : Server) (p : Pool) (i : ℕ)
    → Follows codec app [] waiting i p
    → IsCoherent codec app p
unfolding is_due
quiet-IsCoherent codec app p i (inl due) = absurd (ground arith)
quiet-IsCoherent codec app p i (inr s) = s

module _ (codec : Codec) (merge : Merge) (d : Differ) (deliver : ℕ → Bool) where
  pub resting-IsCoherent :
      (Watched : ℕ → Type 0) (behind : (i : ℕ) → Watched i → 1 ≤ i) (quiet : List Text) (s : System)
      → Inv codec merge d deliver Watched behind quiet s
      → s.app.storage.watcher ≡ some []
      → s.workers 0 ≡ waiting
      → (i : ℕ) (p : Pool) → Watched i
      → pool_at i s.app.stream.pools ≡ some p
      → IsCoherent codec s.app p
  resting-IsCoherent Watched behind quiet s inv none_waits idle i p watched at =
      quiet-IsCoherent codec s.app p i (
        subst (λ w. Follows codec s.app [] w i p) idle
          (subst (λ events. Follows codec s.app events (s.workers 0) i p)
            (ground (arith, inv.is_open.watcher)) (inv.pools i p watched at)))

  -- One reader of the channel starts with an active storage, no event waiting, and, behind the
  -- first pool, caches that hold what reads of their keys give. Whatever writes of single keys
  -- that are to be broadcast come between its steps, the caches hold what reads give whenever no
  -- event waits and the reader is back at the receive. A read that the filters refuse asks nothing
  -- of the cache.
  pub Reach-IsCurrent :
      (app : Server) (s : System)
      → IsOpen app.storage app.storage.no_broadcast_keys []
      → IsCurrent codec app
      → Reach codec merge d deliver 1 app s
      → s.app.storage.watcher ≡ some []
      → s.workers 0 ≡ waiting
      → IsCurrent codec s.app
  unfolding IsCurrent
  Reach-IsCurrent app s open_ current r none_waits idle i p le at =
      resting-IsCoherent (λ i. 1 ≤ i) (λ i le. le) app.storage.no_broadcast_keys s
        (Reach-Inv codec merge d deliver (λ i. 1 ≤ i) (λ i le. le) app.storage.no_broadcast_keys app
          s r
          (record { events = []; is_open = open_; pools = λ i p le at. inr (current i p le at) }))
        none_waits idle i p le at
