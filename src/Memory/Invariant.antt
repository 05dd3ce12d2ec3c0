-- ===== src/Memory/Invariant.antt =====
-- The invariant of memory.go: whatever is called, in whatever order, the map holds each key once,
-- every key is valid, and every value decodes to an object that names its key.
use ooo.Base.{
  true, List, some, Text, ◌≡◌, ℤ, ℕ, All, has, arith, Bool-cases, Option-cases, inl, inr, subst,
  sym,
}
use ooo.Key.Path.{star}
use ooo.Memory.Locks.{get_and_lock-mem, unlock-mem, set_and_unlock-mem}
use ooo.Meta.{Codec, IsCodec}
use ooo.Memory.Table.{load}
use ooo.Memory.State.{Db}
use ooo.Memory.Writes.{Merge, clear}
use ooo.Memory.Life.{new_storage, start, close, set_and_unlock}
use ooo.Memory.Run.{Request, step, run, run_induction}
use ooo.Memory.Entries.{
  IsWell, IsWell-nil, set-IsWell, set_with_meta-IsWell, del-IsWell, patch-IsWell,
}

pub close-mem : (db : Db) → (close db).1.mem ≡ db.mem
unfolding close
close-mem db = ground arith

module _ (codec : Codec) (merge : Merge) where
  -- The bodies that are stored as they are given are JSON.
  abbrev pub HasJson : Request → Type 0
  HasJson (Request.set now path body) = codec.is_json body ≡ true
  HasJson (Request.set_with_meta path body created updated) = codec.is_json body ≡ true
  HasJson (Request.set_and_unlock now path body) = codec.is_json body ≡ true
  HasJson _ = Unit

  module _ (laws : IsCodec codec)
      (merge_json : (a b m : Text) (n : ℕ) → merge a b ≡ some (m, n) → codec.is_json m ≡ true) where
    set_and_unlock-IsWell :
        (now : ℤ) (path body : Text) (db : Db)
        → codec.is_json body ≡ true
        → IsWell codec db.mem
        → IsWell codec (set_and_unlock codec now path body db).1.mem
    set_and_unlock-IsWell now path body db j w =
        rw set_and_unlock-mem (elim (Bool-cases (has star path)) [
          | inl e ↦ rw e w
          | inr e ↦ rw e (elim (Option-cases (load path db.locks)) [
            | inl f ↦ rw f w
            | inr (x, f) ↦ rw f (set-IsWell codec laws now path body db j w)
          ])
        ])

    step-IsWell :
        (r : Request) (db : Db)
        → HasJson r
        → IsWell codec db.mem
        → IsWell codec (step codec merge r db).mem
    unfolding step
    step-IsWell (Request.set now path body) db j w = set-IsWell codec laws now path body db j w
    step-IsWell (Request.patch now path body) db j w =
        patch-IsWell codec laws merge merge_json now path body db w
    step-IsWell (Request.set_with_meta path body c u) db j w =
        set_with_meta-IsWell codec laws path body c u db j w
    step-IsWell (Request.del path) db j w = del-IsWell codec laws path db w
    step-IsWell Request.clear db j w = unfold clear in IsWell-nil codec
    step-IsWell (Request.start l) db j w = unfold start in w
    step-IsWell Request.close db j w = subst (IsWell codec) (sym (close-mem db)) w
    step-IsWell (Request.get_and_lock path) db j w = rw get_and_lock-mem w
    step-IsWell (Request.set_and_unlock now path body) db j w =
        set_and_unlock-IsWell now path body db j w
    step-IsWell (Request.unlock path) db j w =
        subst (IsWell codec) (sym (unlock-mem codec path db)) w

    -- After any calls of the operations of the storage, in any order, on a new storage, the map
    -- holds each key once, and each value decodes to an object that names its key, a valid one,
    -- and the last part of it. The bodies that are stored as they are given, and what the merge
    -- library returns, are JSON.
    pub run-IsWell :
        (rs : List Request) → All HasJson rs → IsWell codec (run codec merge rs new_storage).mem
    run-IsWell rs j =
        run_induction codec merge (λ db. IsWell codec db.mem) HasJson step-IsWell rs new_storage j
          (IsWell-nil codec)
