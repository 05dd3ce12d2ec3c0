-- ===== src/Memory/Merged/Paths.antt =====
-- What `Patch` (memory.go) does, of a key or of a pattern.
use ooo.Base.{
  true, false, List, [], ◌∷◌, Text, text_eq, text_eq_iff, ◌≡◌, refl, ◌∙◌, ap, if◌then◌else◌, arith,
  Bool-cases, Option-cases, inl, inr, ℤ, is_empty, has,
}
use ooo.Key.{is_valid, match}
use ooo.Key.Path.{star}
use ooo.Meta.{Codec}
use ooo.Memory.Table.{IsTable, load, keys_if}
use ooo.Memory.State.{Db, IsStarted, returned, notify, set as set_event}
use ooo.Memory.Writes.{Merge, patch_entry, patch_keys, patch}
use ooo.Memory.Notify.{notify-mem, notify-returned}
use ooo.Memory.Patches.{patch_error, patch_entry-returned, patch-state}
use ooo.Memory.Merged.{
  is_among, merged, before_error, first_error, keys_if-IsDistinct, next, load-next, patch_keys_lem,
}

-- The keys that a patch of a path is of, in the order of the map.
abbrev pub keys_of : Text → Db → List Text
keys_of path db = if has star path then keys_if (match path) db.mem else path ∷ []

module _ (codec : Codec) (merge : Merge) (now : ℤ) (body : Text) where
  module _ (path : Text) (db : Db) (v : is_valid path ≡ true) (n : is_empty body ≡ false) where
    abbrev Patched : List Text → Type 0
    Patched keys =
        ((patch codec merge now path body db).0
          ≡ returned (path, first_error codec merge now body keys db))
        × ((j : Text)
            → load j (patch codec merge now path body db).1.mem ≡ (
                if is_among j (before_error codec merge now body keys db)
                then merged codec merge now body j db
                else load j db.mem))

    pattern-Patched : has star path ≡ true → IsTable db.mem → Patched (keys_if (match path) db.mem)
    pattern-Patched s t =
        let keys = keys_if (match path) db.mem in
        let (r, l) =
          patch_keys_lem codec merge now body keys db (keys_if-IsDistinct (match path) db.mem t) in
        let whole : (patch codec merge now path body db).1
            ≡ (patch_keys codec merge now body keys db).1 =
          patch-state codec merge now body path db ∙ rw (v, n, s) refl in
        (unfold patch in ground (arith, r), λ j. ap (λ t. load j t.mem) whole ∙ l j)

    next-IsStarted : IsStarted db → IsStarted (next codec merge now body path db)
    next-IsStarted h =
        unfold patch_entry in
        record {
          storage = λ e. ground (arith, h.storage);
          watcher = λ a e. ground (arith, h.watcher);
        }

    single-Patched : has star path ≡ false → IsStarted db → Patched (path ∷ [])
    single-Patched s h = elim (Option-cases (patch_error codec merge now path body db)) [
      | inr (x, e) ↦
          let whole : (patch codec merge now path body db).1 ≡ db =
            patch-state codec merge now body path db ∙ rw (v, n, s, e) refl in
          rw (before_error, first_error, e)
            (
              unfold patch in ground (arith, patch_entry-returned codec merge now path body db, e),
              λ j. ap (λ t. load j t.mem) whole,
            )
      | inl e ↦
          let told = notify set_event path (next codec merge now body path db) in
          let whole : (patch codec merge now path body db).1 ≡ told.1 =
            patch-state codec merge now body path db ∙ rw (v, n, s, e) refl in
          rw (before_error, first_error, e)
            (
              unfold patch in
                  ground (
                    arith,
                    patch_entry-returned codec merge now path body db,
                    notify-returned set_event path (next codec merge now body path db)
                        (next-IsStarted h),
                  ),
              λ j.
                  ap (λ t. load j t.mem) whole
                  ∙ ap (load j) (notify-mem set_event path (next codec merge now body path db))
                  ∙ load-next codec merge now body path db j
                  ∙ elim (Bool-cases (text_eq path j)) [
                    | inl f ↦
                        rw f (ap (λ k. merged codec merge now body k db) ((text_eq_iff path j).0 f))
                    | inr f ↦ rw f refl
                  ],
            )
    ]

  -- In a started storage whose map holds each key once, `Patch` of a valid path and a body that is
  -- not empty returns the error of the first of its keys, in the order of the map, that cannot be
  -- patched, or none: the keys that match, if the path has a star, else the path. The keys before
  -- it have what a patch of the key makes of their values, and every other key the value that it
  -- had.
  pub patch_lem :
      (path : Text) (db : Db)
      → is_valid path ≡ true
      → is_empty body ≡ false
      → IsTable db.mem
      → IsStarted db
      → ((patch codec merge now path body db).0
          ≡ returned (path, first_error codec merge now body (keys_of path db) db))
        × ((j : Text)
            → load j (patch codec merge now path body db).1.mem ≡ (
                if is_among j (before_error codec merge now body (keys_of path db) db)
                then merged codec merge now body j db
                else load j db.mem))
  patch_lem path db v n t h = elim (Bool-cases (has star path)) [
    | inl s ↦ rw s (pattern-Patched path db v n s t)
    | inr s ↦ rw s (single-Patched path db v n s h)
  ]
