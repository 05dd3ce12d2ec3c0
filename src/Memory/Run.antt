-- ===== src/Memory/Run.antt =====
-- Sequences of calls of memory.go's operations that change its state, in the order in which they
-- take effect. Each changes the map by single steps of `sync.Map`; the clock's readings come with
-- the calls.
use ooo.Base.{List, [], ◌∷◌, Text, ℤ, All}
use ooo.Meta.{Codec}
use ooo.Memory.State.{Db}
use ooo.Memory.Writes
use ooo.Memory.Writes.{Merge}
use ooo.Memory.Life

pub data Request : Type 0 where
  set : ℤ → Text → Text → Request
  patch : ℤ → Text → Text → Request
  set_with_meta : Text → Text → ℤ → ℤ → Request
  del : Text → Request
  clear : Request
  start : List Text → Request
  close : Request
  get_and_lock : Text → Request
  set_and_unlock : ℤ → Text → Text → Request
  unlock : Text → Request

module _ (codec : Codec) (merge : Merge) where
  unfoldable pub step : Request → Db → Db
  step (set now path body) db = (Writes.set codec now path body db).1
  step (patch now path body) db = (Writes.patch codec merge now path body db).1
  step (set_with_meta path body created updated) db =
      (Writes.set_with_meta codec path body created updated db).1
  step (del path) db = (Writes.del path db).1
  step clear db = (Writes.clear db).1
  step (start no_broadcast) db = (Life.start no_broadcast db).1
  step close db = (Life.close db).1
  step (get_and_lock path) db = (Life.get_and_lock codec path db).1
  step (set_and_unlock now path body) db = (Life.set_and_unlock codec now path body db).1
  step (unlock path) db = (Life.unlock path db).1

  unfoldable pub run : List Request → Db → Db
  run [] db = db
  run (r ∷ rs) db = run rs (step r db)

  pub run_induction :
      (P : Db → Type 0) (Q : Request → Type 0)
      → ((r : Request) (db : Db) → Q r → P db → P (step r db))
      → (rs : List Request) (db : Db) → All Q rs
      → P db
      → P (run rs db)
  unfolding run
  run_induction P Q keep [] db q h = h
  run_induction P Q keep (r ∷ rs) db q h =
      run_induction P Q keep rs (step r db) q.1 (keep r db q.0 h)
