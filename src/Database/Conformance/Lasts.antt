-- ===== src/Database/Conformance/Lasts.antt =====
-- The in-memory storage (memory.go) passes `StorageGetNTest`: the last and the first of numbered keys, and
-- both orders of the list.
use ooo.Base.{true, ◌≡◌}
use ooo.Meta.{Object, Codec}
use ooo.Memory.Table.{Table}
use ooo.Memory.Writes
use ooo.Memory.Writes.{entry, peek}
use ooo.Database.{Database}

-- The body is JSON without spaces.
abbrev pub IsCompact : Codec → Object → Type 0
IsCompact codec o = (codec.is_json o.body ≡ true) × (codec.compact o.body ≡ o.body)
