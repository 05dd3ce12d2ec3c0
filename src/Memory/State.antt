-- ===== src/Memory/State.antt =====
-- The state of memory.go: `MemoryStorage`, the events of storage.go, and the ways a call ends.
use ooo.Base.{Bool, true, List, [], ◌∷◌, ◌++◌, Option, none, some, Text, ◌≡◌, ◌≢◌, if◌then◌else◌}
use ooo.Key.{contains}
use ooo.Memory.Table.{Table}

-- The errors of memory.go; `json` and `merging` stand for those of the two libraries.
pub data Error : Type 0 where
  invalid_path not_found noop empty_data invalid_pattern invalid_range invalid_limit glob_lock :
      Error
  lock_not_found json merging : Error

pub data Operation : Type 0 where
  set del : Operation

-- `StorageEvent`
pub record Event : Type 0 where
  pub key : Text
  pub operation : Operation

-- `MemoryStorage`. `storage` is the pointer to `Storage`, of which only `Active` is used: `none`
-- is nil. `watcher` is the channel: `none` is nil, and else the events that are sent through it. It
-- has no buffer: the events are those whose senders wait for a reader, or did.
-- A lock is there once it was asked for, and true while it is held.
pub record Db : Type 0 where
  pub mem : Table Text
  pub locks : Table Bool
  pub no_broadcast_keys : List Text
  pub watcher : Option (List Event)
  pub storage : Option Bool

-- A call returns, ends the program (a nil pointer, a closed channel, an unlocked mutex), or
-- waits for ever.
pub data Outcome {ℓ} (A : Type ℓ) : Type ℓ where
  returned : A → Outcome A
  panicked : Outcome A
  blocked : Outcome A

-- A call on a state, which comes back however the call ends.
abbrev pub Call {ℓ} : Type 0 → Type ℓ → Type ℓ
Call S A = S → Outcome A × S

abbrev pub Exec {ℓ} : Type ℓ → Type ℓ
Exec A = Call Db A

abbrev pub continue {ℓ κ} :
    {S : Type 0} {A : Type ℓ} {B : Type κ} → (A → Call S B) → Outcome A × S → Outcome B × S
continue f (returned a, s) = f a s
continue f (panicked, s) = (panicked, s)
continue f (blocked, s) = (blocked, s)

infixl 5 ◌>>=◌ ◌>>◌
abbrev pub ◌>>=◌ {ℓ κ} :
    {S : Type 0} {A : Type ℓ} {B : Type κ} → Call S A → (A → Call S B) → Call S B
◌>>=◌ m f s = continue f (m s)

abbrev pub ◌>>◌ {ℓ} : {S : Type 0} {B : Type ℓ} → Call S (Unit {0}) → Call S B → Call S B
m >> k = m >>= λ _. k

abbrev pub pure {ℓ} : {S : Type 0} {A : Type ℓ} → A → Call S A
pure a s = (returned a, s)

abbrev pub update : (Db → Db) → Exec (Unit {0})
update f db = (returned tt, f db)

-- What Go returns beside an error.
abbrev pub Reply {ℓ} : Type ℓ → Type ℓ
Reply A = A × Option Error

-- `db.Active()`
abbrev pub active : Exec Bool
active db = elim db.storage [ none ↦ (panicked, db) | some a ↦ (returned a, db) ]

-- `db.watcher <- event`: a send through a nil channel waits for ever.
abbrev pub send : Event → Exec (Unit {0})
send e db = elim db.watcher [
  | none ↦ (blocked, db)
  | some sent ↦ (returned tt, record db { watcher = some (sent ++ e ∷ []) })
]

-- `if !key.Contains(db.noBroadcastKeys, path) && db.Active() { db.watcher <- ... }`
unfoldable pub notify : Operation → Text → Exec (Unit {0})
notify operation path db =
    if contains db.no_broadcast_keys path
    then (returned tt, db)
    else (do
      is_active ← active
      if is_active then send (record { key = path; operation = operation }) else pure tt)
        db

-- A started storage: not nil, and with a channel while it is active.
pub record IsStarted (db : Db) : Type 0 where
  pub storage : db.storage ≢ none
  pub watcher : db.storage ≡ some true → db.watcher ≢ none
