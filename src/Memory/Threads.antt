-- ===== src/Memory/Threads.antt =====
-- Goroutines that call memory.go's writes at once. `sync.Map` makes a load, a store and a deletion
-- single steps; `Set` looks at the times of the old entry in one and stores in another, and
-- `_patch` loads and merges before that.
use ooo.Base.{
  ℕ, ◌==◌, true, [], some, Text, ◌≡◌, ◌≢◌, refl, if◌then◌else◌, arith, Bool-cases, inl, inr, ℤ,
}
use ooo.Key.{is_valid, last_index}
use ooo.Meta.{Object, Codec, IsCodec}
use ooo.Memory.Table.{Table, load, store, delete}
use ooo.Memory.Effects.{stores}
use ooo.Memory.Writes.{Merge, peek}
use ooo.Memory.Entries.{IsWell, IsWell-nil, store-IsWell, delete_if-IsWell, encoded-IsEntry}

-- Where a goroutine stands, with its local variables.
pub data Thread : Type 0 where
  idle : Thread
  merged : (path body : Text) → Thread  -- in `_patch`, before `Peek`
  stamped : (path body : Text) (times : ℤ × ℤ) → Thread  -- before the store

module _ (codec : Codec) (merge : Merge) where
  abbrev stamped_entry : Text → Text → ℤ × ℤ → Text
  stamped_entry path body times = codec.encode_object (record {
    created = times.0;
    updated = times.1;
    index = last_index path;
    path = path;
    body = body;
  })

  -- One step of a goroutine: of `Set`, of `_patch`, of `SetWithMeta`, of `Del` or `Clear`. The
  -- bodies that are stored as they are given are JSON.
  pub data Move (mem : Table Text) : Thread → Table Text → Thread → Type 0 where
    set_peek :
        (now : ℤ) (path body : Text)
        → stores path body ≡ true
        → codec.is_json body ≡ true
        → Move mem idle mem (stamped path body (peek codec mem path now))
    patch_load :
        (path body raw m : Text) (o : Object) (n : ℕ)
        → load path mem ≡ some raw
        → codec.decode_object raw ≡ some o
        → merge o.body body ≡ some (m, n)
        → n ≢ 0
        → Move mem idle mem (merged path m)
    patch_peek :
        (now : ℤ) {path m : Text}
        → Move mem (merged path m) mem (stamped path m (peek codec mem path now))
    put_entry :
        {path body : Text} {times : ℤ × ℤ}
        → Move mem (stamped path body times) (store path (stamped_entry path body times) mem) idle
    put_meta :
        (path body : Text) (created updated : ℤ)
        → is_valid path ≡ true
        → codec.is_json body ≡ true
        → Move mem idle (store path (stamped_entry path body (created, updated)) mem) idle
    remove : (path : Text) → Move mem idle (delete path mem) idle

  -- The map, and the goroutines by number.
  pub record Shared : Type 0 where
    pub mem : Table Text
    pub threads : ℕ → Thread

  abbrev pub at_thread : ℕ → Thread → (ℕ → Thread) → ℕ → Thread
  at_thread i w threads j = if i == j then w else threads j

  pub data Reach : Shared → Type 0 where
    start : Reach (record { mem = []; threads = λ _. idle })
    later :
        {s : Shared} {mem : Table Text} {w : Thread}
        → Reach s
        → (i : ℕ) → Move s.mem (s.threads i) mem w
        → Reach (record { mem = mem; threads = at_thread i w s.threads })

  -- What a goroutine is about to store is for a valid key, and JSON.
  abbrev IsReady : Thread → Type 0
  IsReady idle = Unit
  IsReady (merged path body) = (is_valid path ≡ true) × (codec.is_json body ≡ true)
  IsReady (stamped path body times) = (is_valid path ≡ true) × (codec.is_json body ≡ true)

  module _ (laws : IsCodec codec)
      (merge_json : (a b m : Text) (n : ℕ) → merge a b ≡ some (m, n) → codec.is_json m ≡ true) where
    Move-IsWell :
        {mem mem' : Table Text} {w w' : Thread}
        → Move mem w mem' w'
        → IsWell codec mem
        → IsReady w
        → IsWell codec mem' × IsReady w'
    Move-IsWell (set_peek now path body s j) h r = (h, (ground arith, j))
    Move-IsWell (patch_load path body raw m o n l d g z) h r =
        (h, ((h.entries path raw l).valid, merge_json o.body body m n g))
    Move-IsWell (patch_peek now) h r = (h, r)
    Move-IsWell (put_entry {path} {body} {times}) h r = (
      store-IsWell codec path (stamped_entry path body times) _
          (encoded-IsEntry codec laws _ r.0 refl r.1) h,
      tt,
    )
    Move-IsWell (put_meta path body created updated v j) h r = (
      store-IsWell codec path (stamped_entry path body (created, updated)) _
          (encoded-IsEntry codec laws _ v refl j) h,
      tt,
    )
    Move-IsWell (remove path) h r = (unfold delete in delete_if-IsWell codec _ _ h, tt)

    Reach-IsReady : (s : Shared) → Reach s → IsWell codec s.mem × ((i : ℕ) → IsReady (s.threads i))
    Reach-IsReady s start = (IsWell-nil codec, λ i. tt)
    Reach-IsReady t (later {s} {mem} {w} r i mv) =
        let (h, ready) = Reach-IsReady s r in
        let (h', ready') = Move-IsWell mv h (ready i) in
        (h', λ j. elim (Bool-cases (i == j)) [ inl e ↦ rw e ready' | inr e ↦ rw e (ready j) ])

    -- Whatever single steps of whatever goroutines that write follow on an empty map, in any
    -- order, the map holds each key once, and each value decodes to an object that names its key,
    -- a valid one, and the last part of it. The bodies that are stored as they are given, and what
    -- the merge library returns, are JSON.
    pub Reach-IsWell : (s : Shared) → Reach s → IsWell codec s.mem
    Reach-IsWell s r = (Reach-IsReady s r).0
