-- ===== src/Memory/Effects.antt =====
-- What each write of memory.go leaves in the map, and how it ends in a started storage.
use mathlib.Core.List.{append-nil}
use ooo.Base.{
  Bool, true, false, not, ◌&&◌, [], ◌∷◌, ◌++◌, none, some, Text, ◌≡◌, if◌then◌else◌, arith, ℤ, has,
  is_empty,
}
use ooo.Key.{is_valid, last_index, match}
use ooo.Key.Path.{star}
use ooo.Meta.{Codec}
use ooo.Memory.Table.{load, store, delete, delete_if, delete-absent}
use ooo.Memory.State.{
  invalid_path, not_found, empty_data, Db, returned, IsStarted, set as set_event, del as del_event,
}
use ooo.Memory.Notify.{sent, is_observed, notify-mem, notify-locks, notify-returned, notify-sent}
use ooo.Memory.Writes.{entry, set, set_with_meta, del}

-- The calls of `Set` that store something.
abbrev pub stores : Text → Text → Bool
stores path body = is_valid path && (not (is_empty body) && not (has star path))

module _ (codec : Codec) (now : ℤ) (path body : Text) (db : Db) where
  abbrev after_store : Db
  after_store = record db { mem = store path (entry codec db.mem path body now) db.mem }

  pub set-mem :
      (set codec now path body db).1.mem
      ≡ (if stores path body then store path (entry codec db.mem path body now) db.mem else db.mem)
  unfolding set
  set-mem = ground (arith, notify-mem set_event path after_store)

  pub set-locks : (set codec now path body db).1.locks ≡ db.locks
  unfolding set
  set-locks = ground (arith, notify-locks set_event path after_store)

  -- In a started storage the call returns, with the error that the first failing test names.
  pub set-returned :
      IsStarted db
      → (set codec now path body db).0
        ≡ returned (
            if stores path body then (last_index path, none) else (
              path,
              if is_valid path
                  then (if is_empty body then some empty_data else none)
                  else some invalid_path,
            ))
  unfolding set
  set-returned h = ground (
    arith,
    notify-returned set_event path after_store
        (record { storage = h.storage; watcher = h.watcher }),
  )

  -- In a started storage `Set` sends one event if something was stored under an observed path, and
  -- no event otherwise.
  pub set-sent :
      IsStarted db
      → sent (set codec now path body db).1
        ≡ sent db
          ++ (if stores path body && is_observed db path
              then record { key = path; operation = set_event } ∷ []
              else [])
  unfolding set
  set-sent h = ground (
    arith,
    append-nil (sent db),
    notify-sent set_event path after_store (record { storage = h.storage; watcher = h.watcher }),
  )

module _ (path : Text) (db : Db) where
  pub del-mem :
      (del path db).1.mem
      ≡ (if has star path then delete_if (match path) db.mem else delete path db.mem)
  unfolding del
  del-mem = ground (
    arith,
    delete-absent path db.mem,
    notify-mem del_event path (record db { mem = delete path db.mem }),
    notify-mem del_event path (record db { mem = delete_if (match path) db.mem }),
  )

  -- The deletion of a single key that is not there is the one that fails.
  abbrev pub is_missing : Bool
  is_missing = not (has star path) && (elim (load path db.mem) [ none ↦ true | some _ ↦ false ])

  pub del-returned :
      IsStarted db → (del path db).0 ≡ returned (if is_missing then some not_found else none)
  unfolding del
  del-returned h = ground (
    arith,
    notify-returned del_event path (record db { mem = delete path db.mem })
        (record { storage = h.storage; watcher = h.watcher }),
    notify-returned del_event path (record db { mem = delete_if (match path) db.mem })
        (record { storage = h.storage; watcher = h.watcher }),
  )

  -- In a started storage `Del` sends one event for its path if it did not fail and the path is
  -- observed, and no event otherwise.
  pub del-sent :
      IsStarted db
      → sent (del path db).1
        ≡ sent db
          ++ (if not is_missing && is_observed db path
              then record { key = path; operation = del_event } ∷ []
              else [])
  unfolding del
  del-sent h = ground (
    arith,
    append-nil (sent db),
    notify-sent del_event path (record db { mem = delete path db.mem })
        (record { storage = h.storage; watcher = h.watcher }),
    notify-sent del_event path (record db { mem = delete_if (match path) db.mem })
        (record { storage = h.storage; watcher = h.watcher }),
  )

  pub del-locks : (del path db).1.locks ≡ db.locks
  unfolding del
  del-locks = ground (
    arith,
    notify-locks del_event path (record db { mem = delete path db.mem }),
    notify-locks del_event path (record db { mem = delete_if (match path) db.mem }),
  )

module _ (codec : Codec) (path body : Text) (created updated : ℤ) (db : Db) where
  -- The bytes that `SetWithMeta` stores.
  abbrev pub meta_entry : Text
  meta_entry = codec.encode_object (record {
    created = created;
    updated = updated;
    index = last_index path;
    path = path;
    body = body;
  })

  pub set_with_meta-mem :
      (set_with_meta codec path body created updated db).1.mem
      ≡ (if is_valid path then store path meta_entry db.mem else db.mem)
  unfolding set_with_meta
  set_with_meta-mem =
      ground (arith, notify-mem set_event path (record db { mem = store path meta_entry db.mem }))

  pub set_with_meta-locks : (set_with_meta codec path body created updated db).1.locks ≡ db.locks
  unfolding set_with_meta
  set_with_meta-locks =
      ground (arith, notify-locks set_event path (record db { mem = store path meta_entry db.mem }))
