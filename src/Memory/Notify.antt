-- ===== src/Memory/Notify.antt =====
-- What `notify` (the broadcast of memory.go's writes) does: it returns in a started storage, and
-- changes nothing but the events sent. That it returns is up to a reader, which takes the event.
use ooo.Base.{
  Bool, false, not, ◌&&◌, List, [], ◌∷◌, ◌++◌, none, some, Text, ◌≡◌, if◌then◌else◌, arith,
}
use mathlib.Core.List.{append-nil}
use ooo.Key.{contains}
use ooo.Memory.State.{Operation, Event, Db, returned, notify, IsStarted}

-- The events that were sent.
abbrev pub sent : Db → List Event
sent db = elim db.watcher [ none ↦ [] | some events ↦ events ]

-- Whether a change of `path` is broadcast.
abbrev pub is_observed : Db → Text → Bool
is_observed db path =
    not (contains db.no_broadcast_keys path) && (elim db.storage [ none ↦ false | some a ↦ a ])

module _ (operation : Operation) (path : Text) (db : Db) where
  pub notify-mem : (notify operation path db).1.mem ≡ db.mem
  unfolding notify
  notify-mem = ground arith

  pub notify-locks : (notify operation path db).1.locks ≡ db.locks
  unfolding notify
  notify-locks = ground arith

  pub notify-returned : IsStarted db → (notify operation path db).0 ≡ returned tt
  unfolding notify
  notify-returned h = ground (arith, h.storage, h.watcher)

  -- Exactly one event, if the change is observed.
  pub notify-sent :
      IsStarted db
      → sent (notify operation path db).1
        ≡ sent db
          ++ (if is_observed db path then record { key = path; operation = operation } ∷ [] else [])
  unfolding notify
  notify-sent h = ground (arith, h.storage, h.watcher, append-nil (sent db))
