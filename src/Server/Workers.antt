-- ===== src/Server/Workers.antt =====
-- The readers of the storage's channel, the goroutines that run `watch` of ooo.go, interleaved
-- with writes. The channel has no buffer: its events in the storage's `watcher` are those whose
-- senders still wait, and a reader takes any of them. `Broadcast` (stream/stream.go) holds its
-- lock for reading only, so that several may run at once: a visit of a pool is a step that reads
-- the data, and one that updates the pool under the pool's own lock. Sessions adds the connections
-- that come and go meanwhile.
pub mod Told
pub mod Places
pub mod Visits
pub mod Advances
pub mod Single
pub mod Ending
pub mod Loop
pub mod Alone
pub mod Heard
pub mod Documents
pub mod Unfiltered
pub mod Subscribed
pub mod Sessions
use ooo.Base.{
  ℕ, zero, suc, ◌<◌, ◌==◌, Bool, true, false, not, ◌&&◌, ◌||◌, List, [], ◌∷◌, ◌++◌, Option, none,
  some, Text, is_empty, has, if◌then◌else◌, ◌≡◌, ℤ,
}
use ooo.Key.{peer, contains}
use ooo.Key.Path.{star}
use ooo.Meta.{Codec}
use ooo.Memory.State.{Event, Db}
use ooo.Memory.Writes.{Merge}
use ooo.Memory.Run.{Request, set, patch, del, step}
use ooo.Stream.{Stream, Pool, Differ, patch_update, set_pool_cache, frame, send_all}
use ooo.Server.{Server, filtered_read}

-- Where a reader stands in `watch`, and in the `Broadcast` of an event's key.
pub data Worker : Type 0 where
  waiting : Worker  -- at the receive
  visiting : (key : Text) (i : ℕ) → Worker  -- at the head of the loop, with the pool's index
  holding : (key : Text) (i : ℕ) (body : Text) → Worker  -- with the pool's data, before its lock
  checking : Worker  -- at the test of the storage
  ended : Worker

unfoldable pub pool_at : ℕ → List Pool → Option Pool
pool_at i [] = none
pool_at zero (p ∷ pools) = some p
pool_at (suc i) (p ∷ pools) = pool_at i pools

unfoldable pub set_pool_at : ℕ → Pool → List Pool → List Pool
set_pool_at i q [] = []
set_pool_at zero q (p ∷ pools) = q ∷ pools
set_pool_at (suc i) q (p ∷ pools) = p ∷ set_pool_at i q pools

-- What `Broadcast` does under the lock of a pool: `Patch`, and the message to its connections.
unfoldable pub update_pool : Differ → (ℕ → Bool) → ℤ → ℕ → Pool → Text → Stream → Stream
update_pool d deliver now i p body s =
    let u = patch_update d s.force_patch s.no_patch p.cache body now in
    send_all deliver (frame u.body u.snapshot u.version) p.connections
      (record s { pools = set_pool_at i (set_pool_cache body now p) s.pools })

abbrev pub Work : Type 0
Work = Server × Worker

-- After a receive; the event of a closed channel has no key.
unfoldable pub received : Text → Worker
received key = if is_empty key then checking else visiting key 1

module _ (codec : Codec) where
  -- The visit of a pool up to the end of its read.
  unfoldable pub visit : Text → ℕ → Server → Worker
  visit key i app = elim (pool_at i app.stream.pools) [
    | none ↦ checking
    | some p ↦
        if peer p.key key
        then (elim (filtered_read codec app p.key) [
          | none ↦ visiting key (suc i)
          | some body ↦ holding key i body
        ])
        else visiting key (suc i)
  ]

module _ (codec : Codec) (d : Differ) (deliver : ℕ → Bool) where
  -- The next step of a reader, but for a receive from an open channel, which needs a sender.
  unfoldable pub advance : ℤ → Server → Worker → Work
  unfolding visit
  advance now app waiting = elim app.storage.watcher [
    | none ↦ (app, checking)
    | some _ ↦ (app, waiting)
  ]
  advance now app (visiting key i) = (app, visit codec key i app)
  advance now app (holding key i body) = elim (pool_at i app.stream.pools) [
    | none ↦ (app, visiting key (suc i))
    | some p ↦ (
      record app { stream = update_pool d deliver now i p body app.stream },
      visiting key (suc i),
    )
  ]
  advance now app checking = elim app.storage.storage [
    | none ↦ (app, checking)
    | some active ↦ (app, if active then waiting else ended)
  ]
  advance now app ended = (app, ended)

-- The writes of a single key that are broadcast if they store or delete something.
unfoldable pub is_told : List Text → Request → Bool
is_told quiet (set _ path _) = not (is_empty path) && not (contains quiet path)
is_told quiet (patch _ path _) =
    not (is_empty path) && (not (has star path) && not (contains quiet path))
is_told quiet (del path) = not (is_empty path) && (not (has star path) && not (contains quiet path))
is_told quiet _ = false

-- The server, and its readers by number.
pub record System : Type 0 where
  pub app : Server
  pub workers : ℕ → Worker

abbrev pub put : ℕ → Worker → (ℕ → Worker) → ℕ → Worker
put i w workers j = if i == j then w else workers j

-- A reader takes its next step.
unfoldable pub turn : Codec → Differ → (ℕ → Bool) → ℕ → ℤ → System → System
turn codec d deliver i now s =
    let w = advance codec d deliver now s.app (s.workers i) in
    record { app = w.0; workers = put i w.1 s.workers }

-- Readers take steps in any order, each with the clock's reading.
unfoldable pub run_turns : Codec → Differ → (ℕ → Bool) → List (ℕ × ℤ) → System → System
run_turns codec d deliver [] s = s
run_turns codec d deliver ((i, now) ∷ turns) s =
    run_turns codec d deliver turns (turn codec d deliver i now s)

module _ (codec : Codec) (merge : Merge) (d : Differ) (deliver : ℕ → Bool) (n : ℕ) where
  -- A write up to the sending of its event, a receive, or a step of a reader.
  pub data Step (s : System) : System → Type 0 where
    write :
        (r : Request)
        → is_told s.app.storage.no_broadcast_keys r ≡ true
        → Step s (record s { app = record s.app { storage = step codec merge r s.app.storage } })
    receive :
        (i : ℕ) (before after : List Event) (e : Event)
        → i < n
        → s.workers i ≡ waiting
        → s.app.storage.watcher ≡ some (before ++ e ∷ after)
        → Step s (record {
          app = record s.app {
            storage = record s.app.storage { watcher = some (before ++ after) };
          };
          workers = put i (received e.key) s.workers;
        })
    work : (i : ℕ) (now : ℤ) → i < n → Step s (turn codec d deliver i now s)

  -- From the start of `n` readers, which is that of the channel too.
  pub data Reach (app : Server) : System → Type 0 where
    start : Reach app (record { app = app; workers = λ _. waiting })
    later : {s t : System} → Reach app s → Step s t → Reach app t
