-- ===== src/Memory/Writes.antt =====
-- The operations of memory.go that change entries. `now` is the clock's reading.
use ooo.Base.{
  List, [], ◌∷◌, Option, none, some, Text, not, ◌&&◌, if◌then◌else◌, is_empty, has, length, take,
  ltb, text_eq, codes, ℤ, pos, ℕ, ◌==◌,
}
use ooo.Key.{is_valid, match, last_index}
use ooo.Key.Path.{star}
use ooo.Meta.{Codec}
use ooo.Memory.Table.{Table, load, store, delete, delete_if, keys_if}
use ooo.Memory.State.{
  Error, invalid_path, not_found, noop, empty_data, json, merging, set as set_event,
  del as del_event, returned, Exec, Reply, ◌>>=◌, ◌>>◌, pure, update, notify,
}

-- merge/merge.go is a copy of another project's library: what `MergeBytes` returns, the merged
-- document and the number of replacements, or an error.
abbrev pub Merge : Type 0
Merge = Text → Text → Option (Text × ℕ)

abbrev pub write_entry : Text → Text → Exec (Unit {0})
write_entry path value = update (λ db. record db { mem = store path value db.mem })

module _ (codec : Codec) where
  -- `Peek`: the creation and update times that a write at `now` gets.
  unfoldable pub peek : Table Text → Text → ℤ → ℤ × ℤ
  peek mem key now = elim (load key mem) [
    | none ↦ (now, pos 0)
    | some previous ↦ elim (codec.decode_object previous) [
      | none ↦ (now, pos 0)
      | some old ↦ (old.created, now)
    ]
  ]

  -- The bytes that a write of `body` stores.
  unfoldable pub entry : Table Text → Text → Text → ℤ → Text
  unfolding peek
  entry mem path body now =
      let times = peek mem path now in
      codec.encode_object (record {
        created = times.0;
        updated = times.1;
        index = last_index path;
        path = path;
        body = body;
      })

  unfoldable pub set : ℤ → Text → Text → Exec (Reply Text)
  set now path body db =
      if not (is_valid path)
      then (returned (path, some invalid_path), db)
      else if is_empty body
      then (returned (path, some empty_data), db)
      else if not (has star path)
      then (do
        write_entry path (entry db.mem path body now)
        notify set_event path
        pure (last_index path, none))
          db
      else (returned (path, none), db)

  -- `_patch`
  unfoldable pub patch_entry : Merge → ℤ → Text → Text → Exec (Reply Text)
  patch_entry merge now path body db = elim (load path db.mem) [
    | none ↦ (returned (path, some not_found), db)
    | some raw ↦ elim (codec.decode_object raw) [
      | none ↦ (returned (path, some json), db)
      | some obj ↦ elim (merge obj.body body) [
        | none ↦ (returned (path, some merging), db)
        | some (merged, replaced) ↦
            if replaced == 0
            then (returned (path, some noop), db)
            else (do write_entry path (entry db.mem path merged now); pure (path, none)) db
      ]
    ]
  ]

  -- The loop over the matching keys, which the first error ends.
  unfoldable pub patch_keys : Merge → ℤ → Text → List Text → Exec (Option Error)
  patch_keys merge now body [] = pure none
  patch_keys merge now body (key ∷ keys) = do
    (_, err) ← patch_entry merge now key body
    elim err [ none ↦ patch_keys merge now body keys | some e ↦ pure (some e) ]

  unfoldable pub patch : Merge → ℤ → Text → Text → Exec (Reply Text)
  patch merge now path body db =
      if not (is_valid path)
      then (returned (path, some invalid_path), db)
      else if is_empty body
      then (returned (path, some empty_data), db)
      else if not (has star path)
      then (do
        (index, err) ← patch_entry merge now path body
        elim err [
          | some e ↦ pure (path, some e)
          | none ↦ do notify set_event path; pure (index, none)
        ])
          db
      else (do err ← patch_keys merge now body (keys_if (match path) db.mem); pure (path, err)) db

  unfoldable pub set_with_meta : Text → Text → ℤ → ℤ → Exec (Reply Text)
  set_with_meta path body created updated db =
      if not (is_valid path)
      then (returned (path, some invalid_path), db)
      else (do
        write_entry path (
            codec.encode_object (record {
              created = created;
              updated = updated;
              index = last_index path;
              path = path;
              body = body;
            }))
        if ltb 8 (length path) && text_eq (take 7 path) (codes "history")
            then pure tt
            else notify set_event path
        pure (last_index path, none))
          db

unfoldable pub del : Text → Exec (Option Error)
del path db =
    if not (has star path)
    then elim (load path db.mem) [
      | none ↦ (returned (some not_found), db)
      | some _ ↦
          (do
            update (λ db'. record db' { mem = delete path db'.mem })
            notify del_event path
            pure none)
            db
    ]
    else (do
      update (λ db'. record db' { mem = delete_if (match path) db'.mem })
      notify del_event path
      pure none)
        db

unfoldable pub clear : Exec (Unit {0})
clear = update (λ db. record db { mem = [] })
