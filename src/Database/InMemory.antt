-- ===== src/Database/InMemory.antt =====
-- memory.go as an implementation of the interface of storage.go.
use ooo.Meta.{Codec}
use ooo.Memory.Table.{Table}
use ooo.Memory.State.{Db, Exec, returned}
use ooo.Memory.State
use ooo.Memory.Reads
use ooo.Memory.Writes
use ooo.Memory.Writes.{Merge}
use ooo.Memory.Life
use ooo.Base.{Text}
use ooo.Database.{Database}

-- A call that only reads the map.
abbrev pub reads {ℓ} : {A : Type ℓ} → (Table Text → A) → Exec A
reads f db = (returned (f db.mem), db)

-- `MemoryStorage`
abbrev pub in_memory : Codec → Merge → Database Db
in_memory codec merge = record {
  active = State.active;
  start = Life.start;
  close = Life.close;
  keys = reads (Reads.keys codec);
  keys_range = λ path from to. reads (Reads.keys_range path from to);
  get = λ path. reads (Reads.get codec path);
  get_descending = λ path. reads (Reads.get_descending codec path);
  get_n = λ path limit. reads (Reads.get_n codec path limit);
  get_n_ascending = λ path limit. reads (Reads.get_n_ascending codec path limit);
  get_n_range = λ path limit from to. reads (Reads.get_n_range codec path limit from to);
  set = Writes.set codec;
  patch = Writes.patch codec merge;
  set_with_meta = Writes.set_with_meta codec;
  get_and_lock = Life.get_and_lock codec;
  set_and_unlock = Life.set_and_unlock codec;
  unlock = Life.unlock;
  del = Writes.del;
  clear = Writes.clear;
}
