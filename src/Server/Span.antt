-- ===== src/Server/Span.antt =====
-- The life of a server, from `Start` to `Close` (ooo.go), and the clock's ticks meanwhile
-- (clock.go).
use ooo.Base.{ℕ, Bool, true, false, List, [], none, Text, ◌≡◌, ◌≢◌, subst, sym, arith}
use ooo.Memory.State.{Db, returned, panicked, IsStarted}
use ooo.Memory.Life
use ooo.Stream.{Stream, init_clock, broadcast_clock}
use ooo.Server.{Server, wait_listen, wait_start, start, close, is_active, tick}

init_clock-pools : (s : Stream) → (init_clock s).pools ≢ []
unfolding init_clock
init_clock-pools s = ground arith

-- The clock's broadcast of a stream with pools is no panic.
broadcast_clock-some :
    (deliver : ℕ → Bool) (time : Text) (s : Stream)
    → s.pools ≢ []
    → broadcast_clock deliver time s ≢ none
unfolding broadcast_clock
broadcast_clock-some deliver time s h = ground arith

start-IsStarted : (no_broadcast : List Text) (db : Db) → IsStarted (Life.start no_broadcast db).1
start-IsStarted no_broadcast db =
    unfold Life.start in record { storage = λ e. ground arith; watcher = λ s e. ground arith }

module _ (no_broadcast : List Text) (force no_patch : Bool) (app : Server) where
  abbrev pub started : Server
  started = (start no_broadcast true force no_patch app).1

  start-storage : app.active ≡ false → started.storage ≡ (Life.start no_broadcast app.storage).1
  unfolding start wait_listen wait_start Life.start
  start-storage a = ground arith

  start-stream :
      app.active ≡ false
      → started.stream ≡ init_clock (record app.stream { force_patch = force; no_patch = no_patch })
  unfolding start wait_listen wait_start Life.start
  start-stream a = ground arith

  tick-start :
      (deliver : ℕ → Bool) (time : Text) → app.active ≡ false → tick deliver time started ≢ panicked
  unfolding tick
  tick-start deliver time a e =
      let pools : started.stream.pools ≢ [] =
        subst (λ t. t.pools ≢ []) (sym (start-stream a)) (init_clock-pools _) in
      let some_ = broadcast_clock-some deliver time started.stream pools in ground arith

  -- A server that is not active starts on an address that can be listened on, whether it was
  -- closed before or not: it is active then, its storage is started, and a tick of the clock is no
  -- panic. `Close` then returns, a tick after it ends the clock, and a second `Close` changes
  -- nothing. An address that cannot be listened on ends the program.
  pub start-close :
      (deliver : ℕ → Bool) (time : Text)
      → app.active ≡ false
      → ((start no_broadcast true force no_patch app).0 ≡ returned tt)
        × (is_active started ≡ true)
        × IsStarted started.storage
        × (tick deliver time started ≢ panicked)
        × ((close started).0 ≡ returned tt)
        × (tick deliver time (close started).1 ≡ returned none)
        × (close (close started).1 ≡ (returned tt, (close started).1))
        × ((start no_broadcast false force no_patch app).0 ≡ panicked)
  unfolding is_active
  start-close deliver time a = (
    unfold start wait_listen wait_start Life.start in ground arith,
    unfold start wait_listen wait_start Life.start in ground arith,
    subst IsStarted (sym (start-storage a)) (start-IsStarted no_broadcast app.storage),
    tick-start deliver time a,
    unfold start wait_listen wait_start close Life.start Life.close in ground arith,
    unfold start wait_listen wait_start close tick Life.start Life.close in ground arith,
    unfold start wait_listen wait_start close Life.start Life.close in ground arith,
    unfold start wait_listen wait_start Life.start in ground arith,
  )
