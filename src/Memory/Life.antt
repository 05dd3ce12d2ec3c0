-- ===== src/Memory/Life.antt =====
-- The start and the end of memory.go's storage, and its locks.
use ooo.Base.{true, false, List, [], Option, none, some, Text, if◌then◌else◌, has, ℤ}
use ooo.Key.Path.{star}
use ooo.Meta.{Codec}
use ooo.Memory.Table.{load, store}
use ooo.Memory.State.{
  Error, glob_lock, lock_not_found, Db, returned, panicked, blocked, Exec, Reply, ◌>>=◌, ◌>>◌, pure,
}
use ooo.Memory.Reads.{get}
use ooo.Memory.Writes.{set}

-- `MemoryStorage{}`
abbrev pub new_storage : Db
new_storage = record {
  mem = [];
  locks = [];
  no_broadcast_keys = [];
  watcher = none;
  storage = none;
}

unfoldable pub start : List Text → Exec (Option Error)
start no_broadcast db = (
  returned none,
  record db {
    storage = some true;
    watcher = elim db.watcher [ none ↦ some [] | some sent ↦ some sent ];
    no_broadcast_keys = no_broadcast;
  },
)

-- Closing a storage that was not started, or is closed, is a panic.
unfoldable pub close : Exec (Unit {0})
close db = elim db.storage [
  | none ↦ (panicked, db)
  | some _ ↦ elim db.watcher [
    | none ↦ (panicked, record db { storage = some false })
    | some _ ↦ (returned tt, record db { storage = some false; watcher = none })
  ]
]

-- `lock.Lock()` on the lock that `_getLock` returns, made if it is not there.
unfoldable pub lock : Text → Exec (Unit {0})
lock path db = elim (load path db.locks) [
  | some true ↦ (blocked, db)
  | some false ↦ (returned tt, record db { locks = store path true db.locks })
  | none ↦ (returned tt, record db { locks = store path true db.locks })
]

-- `lock.Unlock()`: fatal on a lock that nobody holds.
unfoldable pub release : Text → Exec (Unit {0})
release path db = elim (load path db.locks) [
  | some true ↦ (returned tt, record db { locks = store path false db.locks })
  | some false ↦ (panicked, db)
  | none ↦ (panicked, db)
]

-- `Unlock`
unfoldable pub unlock : Text → Exec (Option Error)
unfolding release
unlock path db = elim (load path db.locks) [
  | none ↦ (returned (some lock_not_found), db)
  | some _ ↦ (do release path; pure none) db
]

module _ (codec : Codec) where
  unfoldable pub get_and_lock : Text → Exec (Reply Text)
  unfolding lock
  get_and_lock path db =
      if has star path
      then (returned ([], some glob_lock), db)
      else (do lock path; λ db'. (returned (get codec path db'.mem), db')) db

  unfoldable pub set_and_unlock : ℤ → Text → Text → Exec (Reply Text)
  unfolding release
  set_and_unlock now path body db =
      if has star path then (returned ([], some glob_lock), db) else elim (load path db.locks) [
        | none ↦ (returned ([], some lock_not_found), db)
        | some _ ↦ (do res ← set codec now path body; release path; pure res) db
      ]
