-- ===== src/Server/Workers/Sessions.antt =====
-- Subscriptions that come and go among the writes and the readers of the channel: what ws.go and
-- clock.go call of stream/stream.go and stream/clock.go. `new`, `Close` and `setCache` hold the
-- stream's mutex for writing, `Broadcast` for reading, so that none of the three comes between
-- a reader's first visit of a pool and its last. `Refresh` is one step here, though it has the
-- mutex twice, for the version and for the cache.
pub mod Places
pub mod Kept
pub mod Passed
pub mod Entered
pub mod Cached
pub mod Begun
pub mod Shown
use ooo.Base.{ℕ, ◌<◌, Bool, true, false, Option, some, Text, ◌≡◌, ◌≢◌, ℤ}
use ooo.Meta.{Codec}
use ooo.Memory.Writes.{Merge}
use ooo.Stream.{Stream, Differ, open_connection, close, refresh, frame, send, broadcast_clock}
use ooo.Server.{filtered_read}
use ooo.Server.Workers.{Worker, waiting, visiting, holding, checking, ended, System, Step}

-- Whether a reader may stand outside `Broadcast`; at its first visit it may not have begun.
abbrev pub IsOutside : Worker → Type 0
IsOutside waiting = Unit
IsOutside (visiting key i) = i ≡ 1
IsOutside (holding key i body) = ⊥
IsOutside checking = Unit
IsOutside ended = Unit

-- A change of the stream that needs the mutex for writing: a connection of another client is made,
-- or closed, or the subscription of one fills an empty cache with what it reads.
pub data Change (client : ℕ) (get : Text → Option Text) (s : Stream) : Stream → Type 0 where
  enter : (key : Text) (c : ℕ) → c ≢ client → Change client get s (open_connection key c s)
  leave :
      (key : Text) (c : ℕ) (s' : Stream)
      → c ≢ client
      → close key c s ≡ some s'
      → Change client get s s'
  fill : (key : Text) (now : ℤ) → Change client get s (refresh key (get key) now s).1

-- What else writes to connections: the first message of another client's subscription, and the
-- ticks of the clock.
pub data Delivery (client : ℕ) (deliver : ℕ → Bool) (s : Stream) : Stream → Type 0 where
  first : (c : ℕ) (m : Text) → c ≢ client → Delivery client deliver s (send deliver m c s)
  tick :
      (time : Text) (s' : Stream)
      → broadcast_clock deliver time s ≡ some s'
      → Delivery client deliver s s'

abbrev pub with_stream : System → Stream → System
with_stream s stream = record s { app = record s.app { stream = stream } }

module _ (codec : Codec) (merge : Merge) (d : Differ) (deliver : ℕ → Bool) (n client : ℕ) where
  -- A step of a writer or reader, or one of other clients' subscriptions or the clock.
  pub data Passage (s : System) : System → Type 0 where
    step : (t : System) → Step codec merge d deliver n s t → Passage s t
    change :
        (stream : Stream)
        → ((i : ℕ) → i < n → IsOutside (s.workers i))
        → Change client (filtered_read codec s.app) s.app.stream stream
        → Passage s (with_stream s stream)
    message :
        (stream : Stream)
        → Delivery client deliver s.app.stream stream
        → Passage s (with_stream s stream)

  -- From any system on.
  pub data Passages (s : System) : System → Type 0 where
    none_yet : Passages s s
    then_ : {t u : System} → Passages s t → Passage t u → Passages s u
