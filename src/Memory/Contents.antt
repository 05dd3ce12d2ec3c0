-- ===== src/Memory/Contents.antt =====
-- What the writes of memory.go do to the values that its reads return.
use ooo.Base.{
  true, false, not, ◌&&◌, List, Option, none, some, Text, text_eq, text_eq_iff, text_eq_refl, ◌≡◌,
  refl, ◌≢◌, ◌∙◌, sym, subst, ap, if◌then◌else◌, arith, Bool-cases, Option-cases, inl, inr, ℤ, ℕ,
  has, is_empty, All,
}
use ooo.Key.{is_valid, last_index, match}
use ooo.Key.Path.{star}
use ooo.Meta.{Object, Codec, IsCodec}
use ooo.Memory.Table.{Table, load, store, keys_if, load-store, load-delete_if, load-delete}
use ooo.Memory.State.{Db, returned, IsStarted, set as set_event}
use ooo.Memory.Notify.{notify-mem}
use ooo.Memory.Writes.{Merge, peek, entry, set, patch_entry, patch, set_with_meta, del}
use ooo.Memory.Effects.{stores, set-mem, set-returned, set_with_meta-mem, meta_entry, del-mem}
use ooo.Memory.Patches.{
  patched, patched_inv, patch_entry-state, patch_entry-watcher, patch-keeps, patch_keys-keeps,
  patch-state,
}
use ooo.Memory.Reads.{get}
use ooo.Memory.Life.{close, start, set_and_unlock}
use ooo.Memory.Locks.{get_and_lock-mem, unlock-mem, set_and_unlock-mem}
use ooo.Memory.Run.{Request, step, run, run_induction}

match-no_star : (path key : Text) → has star path ≡ false → match path key ≡ text_eq path key
unfolding match
match-no_star path key h = ground arith

-- A deletion removes the keys that match its path and no others, whether it fails or not.
pub load-del :
    (path key : Text) (db : Db)
    → load key (del path db).1.mem ≡ (if match path key then none else load key db.mem)
load-del path key db = rw del-mem (elim (Bool-cases (has star path)) [
  | inl e ↦ rw e (load-delete_if (match path) key db.mem)
  | inr e ↦ rw (e, match-no_star path key e) (load-delete path key db.mem)
])

get-load :
    (codec : Codec) (path value : Text) (mem : Table Text)
    → has star path ≡ false
    → load path mem ≡ some value
    → get codec path mem ≡ (value, none)
unfolding get
get-load codec path value mem h e = ground arith

module _ (codec : Codec) (laws : IsCodec codec) where
  -- The object that a write of `body` at `now` makes of what the map holds.
  abbrev pub written : Table Text → Text → Text → ℤ → Object
  written mem path body now = record {
    created = (peek codec mem path now).0;
    updated = (peek codec mem path now).1;
    index = last_index path;
    path = path;
    body = codec.compact body;
  }

  pub decode-entry :
      (mem : Table Text) (path body : Text) (now : ℤ)
      → codec.is_json body ≡ true
      → codec.decode_object (entry codec mem path body now) ≡ some (written mem path body now)
  unfolding entry
  decode-entry mem path body now j = laws.round_trip _ j

  -- In a started storage, `Set` of a JSON body that is not empty under a valid key without a star
  -- returns the last part of the key; then `Get` of the key returns an object with the body, the
  -- key, its last part and the times of `Peek`; and any other key has the value that it had.
  pub set-get :
      (now : ℤ) (path body key : Text) (db : Db)
      → stores path body ≡ true
      → codec.is_json body ≡ true
      → IsStarted db
      → ((set codec now path body db).0 ≡ returned (last_index path, none))
        × (codec.decode_object (get codec path (set codec now path body db).1.mem).0
            ≡ some (written db.mem path body now))
        × (load key (set codec now path body db).1.mem ≡ (
            if text_eq path key then some (entry codec db.mem path body now) else load key db.mem))
  set-get now path body key db s j h =
      let value = entry codec db.mem path body now in
      let m : (set codec now path body db).1.mem ≡ store path value db.mem =
        set-mem codec now path body db ∙ rw s in
      let found : load path (store path value db.mem) ≡ some value =
        load-store path path value db.mem ∙ rw (text_eq_refl path) in
      (
        set-returned codec now path body db h ∙ rw s,
        rw (m, get-load codec path value (store path value db.mem) (ground arith) found)
            (decode-entry db.mem path body now j),
        ap (load key) m ∙ load-store path key value db.mem,
      )

  -- The creation time that the map holds for a key.
  abbrev pub created_in : Text → Table Text → Option ℤ
  created_in key mem = elim (load key mem) [
    | none ↦ none
    | some value ↦ elim (codec.decode_object value) [ none ↦ none | some o ↦ some o.created ]
  ]

  peek-created :
      (key : Text) (mem : Table Text) (now t : ℤ)
      → created_in key mem ≡ some t
      → (peek codec mem key now) ≡ (t, now)
  unfolding peek
  peek-created key mem now t h = ground arith

  store-created_self :
      (key body : Text) (mem : Table Text) (now t : ℤ)
      → codec.is_json body ≡ true
      → created_in key mem ≡ some t
      → created_in key (store key (entry codec mem key body now) mem) ≡ some t
  store-created_self key body mem now t j h = ground (
    arith,
    load-store key key (entry codec mem key body now) mem,
    text_eq_refl key,
    decode-entry mem key body now j,
    peek-created key mem now t h,
  )

  store-created :
      (key path body : Text) (mem : Table Text) (now t : ℤ)
      → codec.is_json body ≡ true
      → created_in key mem ≡ some t
      → created_in key (store path (entry codec mem path body now) mem) ≡ some t
  store-created key path body mem now t j h = elim (Bool-cases (text_eq path key)) [
    | inl e ↦
        subst (λ p. created_in key (store p (entry codec mem p body now) mem) ≡ some t)
          (sym ((text_eq_iff path key).0 e)) (store-created_self key body mem now t j h)
    | inr e ↦ ground (arith, load-store path key (entry codec mem path body now) mem)
  ]

  -- The calls that keep the creation time of a key: all but those that delete it or set the time.
  abbrev pub KeepsCreated : Text → Request → Type 0
  KeepsCreated key (Request.set now path body) = codec.is_json body ≡ true
  KeepsCreated key (Request.set_and_unlock now path body) = codec.is_json body ≡ true
  KeepsCreated key (Request.set_with_meta path body c u) = path ≢ key
  KeepsCreated key (Request.del path) = match path key ≡ false
  KeepsCreated key Request.clear = ⊥
  KeepsCreated key _ = Unit

  module _ (merge : Merge)
      (merge_json : (a b m : Text) (n : ℕ) → merge a b ≡ some (m, n) → codec.is_json m ≡ true)
      (key : Text) (t : ℤ) where
    abbrev Since : Table Text → Type 0
    Since mem = created_in key mem ≡ some t

    set-Since :
        (now : ℤ) (path body : Text) (db : Db)
        → codec.is_json body ≡ true
        → Since db.mem
        → Since (set codec now path body db).1.mem
    set-Since now path body db j h =
        subst Since (sym (set-mem codec now path body db)) (elim (Bool-cases (stores path body)) [
          | inl e ↦ rw e (store-created key path body db.mem now t j h)
          | inr e ↦ rw e h
        ])

    patch_entry-Since :
        (now : ℤ) (path body : Text) (db : Db)
        → Since db.mem
        → Since (patch_entry codec merge now path body db).1.mem
    patch_entry-Since now path body db h =
        subst (λ d. Since d.mem) (sym (patch_entry-state codec merge now path body db))
          (elim (Option-cases (patched codec merge now path body db)) [
            | inl e ↦ rw e h
            | inr (m, e) ↦
                let (raw, o, n, _, _, g, _) = patched_inv codec merge now path body db m e in
                rw e (store-created key path m db.mem now t (merge_json o.body body m n g) h)
          ])

    set_with_meta-Since :
        (path body : Text) (c u : ℤ) (db : Db)
        → path ≢ key
        → Since db.mem
        → Since (set_with_meta codec path body c u db).1.mem
    set_with_meta-Since path body c u db n h = ground (
      arith,
      set_with_meta-mem codec path body c u db,
      load-store path key (meta_entry codec path body c u db) db.mem,
      text_eq_iff path key,
    )

    set_and_unlock-Since :
        (now : ℤ) (path body : Text) (db : Db)
        → codec.is_json body ≡ true
        → Since db.mem
        → Since (set_and_unlock codec now path body db).1.mem
    set_and_unlock-Since now path body db j h =
        ground (arith, set_and_unlock-mem codec now path body db, set-Since now path body db j h)

    step-Since :
        (r : Request) (db : Db)
        → KeepsCreated key r
        → Since db.mem
        → Since (step codec merge r db).mem
    unfolding step
    step-Since (Request.set now path body) db j h = set-Since now path body db j h
    step-Since (Request.patch now path body) db j h =
        patch-keeps codec merge now body (λ d. Since d.mem) (λ k d. patch_entry-Since now k body d)
          (λ p d g. subst Since (sym (notify-mem set_event p d)) g) path db h
    step-Since (Request.set_with_meta path body c u) db j h =
        set_with_meta-Since path body c u db j h
    step-Since (Request.del path) db j h = ground (arith, load-del path key db)
    step-Since Request.clear db j h = absurd j
    step-Since (Request.start l) db j h = unfold start in h
    step-Since Request.close db j h = unfold close in ground arith
    step-Since (Request.get_and_lock path) db j h =
        subst Since (sym (get_and_lock-mem codec path db)) h
    step-Since (Request.set_and_unlock now path body) db j h =
        set_and_unlock-Since now path body db j h
    step-Since (Request.unlock path) db j h = subst Since (sym (unlock-mem codec path db)) h

    -- The creation time that the map holds for a key stays what it is through all calls that
    -- neither delete the key, or all keys, nor set its times, if the bodies that are stored, and
    -- what the merge library returns, are JSON.
    pub run-created :
        (rs : List Request) (db : Db)
        → All (KeepsCreated key) rs
        → created_in key db.mem ≡ some t
        → created_in key (run codec merge rs db).mem ≡ some t
    run-created rs db j h =
        run_induction codec merge (λ d. Since d.mem) (KeepsCreated key) step-Since rs db j h

-- A patch of a pattern with a star sends no event, whatever it changes.
patch-silent :
    (codec : Codec) (merge : Merge) (now : ℤ) (path body : Text) (db : Db)
    → has star path ≡ true
    → (patch codec merge now path body db).1.watcher ≡ db.watcher
patch-silent codec merge now path body db h =
    subst (λ d. d.watcher ≡ db.watcher) (sym (patch-state codec merge now body path db))
      (elim (Bool-cases (is_valid path && not (is_empty body))) [
        | inr e ↦ rw e
        | inl e ↦
            rw (e, h)
              (patch_keys-keeps codec merge now body (λ d. d.watcher ≡ db.watcher)
                (λ k d g. patch_entry-watcher codec merge now k body d ∙ g)
                (keys_if (match path) db.mem) db refl)
      ])
