-- ===== src/Memory/Patches.antt =====
-- What `Patch` and `_patch` of memory.go do to the state, branch by branch.
use ooo.Base.{
  not, ◌&&◌, List, [], ◌∷◌, Option, none, some, Text, ◌≡◌, ◌≢◌, ◌∙◌, sym, subst, Option-cases,
  if◌then◌else◌, arith, Bool-cases, inl, inr, ℤ, has, is_empty, ◌==◌, ℕ,
}
use ooo.Key.{is_valid, match}
use ooo.Key.Path.{star}
use ooo.Meta.{Object, Codec}
use ooo.Memory.Table.{load, store, keys_if}
use ooo.Memory.State.{Error, not_found, noop, json, merging, Db, returned, notify, set as set_event}
use ooo.Memory.Writes.{Merge, entry, patch_entry, patch_keys, patch}

module _ (codec : Codec) (merge : Merge) (now : ℤ) (path body : Text) (db : Db) where
  -- The document that `_patch` stores, if it stores one.
  unfoldable pub patched : Option Text
  patched = elim (load path db.mem) [
    | none ↦ none
    | some raw ↦ elim (codec.decode_object raw) [
      | none ↦ none
      | some obj ↦ elim (merge obj.body body) [
        | none ↦ none
        | some (merged, replaced) ↦ if replaced == 0 then none else some merged
      ]
    ]
  ]

  pub patch_entry-state : (patch_entry codec merge now path body db).1 ≡ elim patched [
    | none ↦ db
    | some merged ↦ record db { mem = store path (entry codec db.mem path merged now) db.mem }
  ]
  unfolding patch_entry patched
  patch_entry-state = ground arith

  -- What is stored is a merge of what was stored with the patch.
  pub patched_inv :
      (m : Text)
      → patched ≡ some m
      → (raw : Text) × (o : Object) × (n : ℕ) × (load path db.mem ≡ some raw)
        × (codec.decode_object raw ≡ some o)
        × (merge o.body body ≡ some (m, n))
        × (n ≢ 0)
  unfolding patched
  patched_inv m h = elim (Option-cases (load path db.mem)) [
    | inl e ↦ absurd (ground arith)
    | inr (raw, e) ↦ elim (Option-cases (codec.decode_object raw)) [
      | inl e' ↦ absurd (ground arith)
      | inr (o, e') ↦ elim (Option-cases (merge o.body body)) [
        | inl e'' ↦ absurd (ground arith)
        | inr ((m', n), e'') ↦ (raw, o, n, e, e', e'' ∙ ground arith, ground arith)
      ]
    ]
  ]

  -- The error of `_patch`, none if it stores.
  unfoldable pub patch_error : Option Error
  patch_error = elim (load path db.mem) [
    | none ↦ some not_found
    | some raw ↦ elim (codec.decode_object raw) [
      | none ↦ some json
      | some obj ↦ elim (merge obj.body body) [
        | none ↦ some merging
        | some (merged, replaced) ↦ if replaced == 0 then some noop else none
      ]
    ]
  ]

  pub patch_entry-returned :
      (patch_entry codec merge now path body db).0 ≡ returned (path, patch_error)
  unfolding patch_entry patch_error
  patch_entry-returned = ground arith

  pub patch_entry-locks : (patch_entry codec merge now path body db).1.locks ≡ db.locks
  unfolding patch_entry
  patch_entry-locks = ground arith

  pub patch_entry-watcher : (patch_entry codec merge now path body db).1.watcher ≡ db.watcher
  unfolding patch_entry
  patch_entry-watcher = ground arith

  -- A patch that fails changes nothing, and a patch that does not fail stores.
  pub patch_error-patched : (e : Error) → patch_error ≡ some e → patched ≡ none
  unfolding patched patch_error
  patch_error-patched e h = ground arith

  pub patched-patch_error : (m : Text) → patched ≡ some m → patch_error ≡ none
  unfolding patched patch_error
  patched-patch_error m h = ground arith

  pub patch_entry-failed :
      (e : Error) → patch_error ≡ some e → (patch_entry codec merge now path body db).1 ≡ db
  patch_entry-failed e h = patch_entry-state ∙ rw (patch_error-patched e h)

-- What every patch of a single key keeps, a patch keeps.
module _ (codec : Codec) (merge : Merge) (now : ℤ) (body : Text) where
  module _ (key : Text) (keys : List Text) (db : Db) where
    pub patch_keys-next :
        patch_error codec merge now key body db ≡ none
        → (patch_keys codec merge now body (key ∷ keys) db).1
          ≡ (patch_keys codec merge now body keys (patch_entry codec merge now key body db).1).1
    unfolding patch_keys
    patch_keys-next e = ground (arith, patch_entry-returned codec merge now key body db)

    pub patch_keys-stop :
        (e : Error)
        → patch_error codec merge now key body db ≡ some e
        → (patch_keys codec merge now body (key ∷ keys) db).1 ≡ db
    unfolding patch_keys
    patch_keys-stop e h = ground (
      arith,
      patch_entry-returned codec merge now key body db,
      patch_entry-failed codec merge now key body db e h,
    )

  module _ (P : Db → Type 0)
      (keep : (key : Text) (db : Db) → P db → P (patch_entry codec merge now key body db).1) where
    pub patch_keys-keeps :
        (keys : List Text) (db : Db) → P db → P (patch_keys codec merge now body keys db).1
    patch_keys-keeps [] db h = unfold patch_keys in h
    patch_keys-keeps (key ∷ keys) db h =
        elim (Option-cases (patch_error codec merge now key body db)) [
          | inl e ↦
              subst P (sym (patch_keys-next key keys db e))
                (patch_keys-keeps keys (patch_entry codec merge now key body db).1 (keep key db h))
          | inr e ↦ subst P (sym (patch_keys-stop key keys db e.0 e.1)) h
        ]

  -- A patch of a pattern runs over the matching keys; a patch of a key broadcasts if it stores.
  pub patch-state :
      (path : Text) (db : Db)
      → (patch codec merge now path body db).1 ≡ (
          if is_valid path && not (is_empty body)
          then (if has star path
              then (patch_keys codec merge now body (keys_if (match path) db.mem) db).1
              else (elim (patch_error codec merge now path body db) [
                | none ↦ (notify set_event path (patch_entry codec merge now path body db).1).1
                | some e ↦ db
              ]))
          else db)
  patch-state path db = elim (Option-cases (patch_error codec merge now path body db)) [
    | inl e ↦ unfold patch in ground (arith, patch_entry-returned codec merge now path body db)
    | inr e ↦
        unfold patch in
        ground (
          arith,
          patch_entry-returned codec merge now path body db,
          patch_entry-failed codec merge now path body db e.0 e.1,
        )
  ]

module _ (codec : Codec) (merge : Merge) (now : ℤ) (body : Text) where
  module _ (P : Db → Type 0)
      (keep : (key : Text) (db : Db) → P db → P (patch_entry codec merge now key body db).1)
      (told : (path : Text) (db : Db) → P db → P (notify set_event path db).1) where
    -- What the patch of each key and the broadcast keep, `Patch` keeps.
    pub patch-keeps : (path : Text) (db : Db) → P db → P (patch codec merge now path body db).1
    patch-keeps path db h =
        subst P (sym (patch-state codec merge now body path db))
          (elim (Bool-cases (is_valid path && not (is_empty body))) [
            | inr e ↦ rw e h
            | inl e ↦ rw e (elim (Bool-cases (has star path)) [
              | inl e' ↦
                  rw e' (
                    patch_keys-keeps codec merge now body P keep (keys_if (match path) db.mem) db h)
              | inr e' ↦ rw e' (elim (Option-cases (patch_error codec merge now path body db)) [
                | inl f ↦
                    rw f (told path (patch_entry codec merge now path body db).1 (keep path db h))
                | inr (x, f) ↦ rw f h
              ])
            ])
          ])
