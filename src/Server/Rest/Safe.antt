-- ===== src/Server/Rest/Safe.antt =====
-- The calls of memory.go that rest.go makes: each returns, and changes nothing if it returns an
-- error.
use ooo.Base.{
  true, false, none, some, Text, ◌≡◌, refl, ◌∙◌, ◌⊎◌, inl, inr, if◌then◌else◌, arith, Bool-cases,
  Option-cases, ℤ, has, is_empty,
}
use ooo.Key.{is_valid, last_index}
use ooo.Key.Path.{star}
use ooo.Meta.{Codec}
use ooo.Memory.State.{
  Db, Error, invalid_path, empty_data, returned, Exec, Reply, IsStarted, set as set_event,
}
use ooo.Memory.Notify.{notify-returned}
use ooo.Memory.Writes
use ooo.Memory.Writes.{Merge, patch_entry}
use ooo.Memory.Effects.{stores, set-returned, is_missing}
use ooo.Memory.Patches.{patch_error, patch_entry-returned, patch-state}

-- A call of the storage returns, and if it returns an error the storage stays as it is.
abbrev pub Safe : Exec (Reply Text) → Db → Type 0
Safe call db =
    (reply : Reply Text) × ((call db).0 ≡ returned reply)
    × ((reply.1 ≡ none) ⊎ ((e : Error) × (reply.1 ≡ some e) × ((call db).1 ≡ db)))

pub set-Safe :
    (codec : Codec) (now : ℤ) (path body : Text) (db : Db)
    → IsStarted db
    → Safe (Writes.set codec now path body) db
set-Safe codec now path body db h = elim (Bool-cases (is_valid path)) [
  | inr v ↦ (
    (path, some invalid_path),
    unfold Writes.set in ground arith,
    inr (invalid_path, refl, unfold Writes.set in ground arith),
  )
  | inl v ↦ elim (Bool-cases (is_empty body)) [
    | inl n ↦ (
      (path, some empty_data),
      unfold Writes.set in ground arith,
      inr (empty_data, refl, unfold Writes.set in ground arith),
    )
    | inr n ↦
        let reply : Reply Text =
          if stores path body then (last_index path, none) else (path, none) in
        (reply, set-returned codec now path body db h ∙ ground arith, inl (ground arith))
  ]
]

patch_entry-IsStarted :
    (codec : Codec) (merge : Merge) (now : ℤ) (path body : Text) (db : Db)
    → IsStarted db
    → IsStarted (patch_entry codec merge now path body db).1
patch_entry-IsStarted codec merge now path body db h = record {
  storage = λ e. h.storage (unfold patch_entry in ground arith);
  watcher =
      λ a e. h.watcher (unfold patch_entry in ground arith) (unfold patch_entry in ground arith);
}

pub patch-Safe :
    (codec : Codec) (merge : Merge) (now : ℤ) (path body : Text) (db : Db)
    → IsStarted db
    → has star path ≡ false
    → Safe (Writes.patch codec merge now path body) db
patch-Safe codec merge now path body db h s = elim (Bool-cases (is_valid path)) [
  | inr v ↦ (
    (path, some invalid_path),
    unfold Writes.patch in ground arith,
    inr (invalid_path, refl, unfold Writes.patch in ground arith),
  )
  | inl v ↦ elim (Bool-cases (is_empty body)) [
    | inl n ↦ (
      (path, some empty_data),
      unfold Writes.patch in ground arith,
      inr (empty_data, refl, unfold Writes.patch in ground arith),
    )
    | inr n ↦ elim (Option-cases (patch_error codec merge now path body db)) [
      | inr (e, f) ↦ (
        (path, some e),
        unfold Writes.patch in ground (arith, patch_entry-returned codec merge now path body db),
        inr (e, refl, patch-state codec merge now body path db ∙ rw (v, n, s, f)),
      )
      | inl f ↦ (
        (path, none),
        unfold Writes.patch in
            ground (
              arith,
              patch_entry-returned codec merge now path body db,
              notify-returned set_event path (patch_entry codec merge now path body db).1
                  (patch_entry-IsStarted codec merge now path body db h),
            ),
        inl refl,
      )
    ]
  ]
]

pub del-missing : (path : Text) (db : Db) → is_missing path db ≡ true → (Writes.del path db).1 ≡ db
unfolding Writes.del
del-missing path db m = ground arith
