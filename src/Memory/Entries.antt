-- ===== src/Memory/Entries.antt =====
-- What memory.go keeps in its map: every value decodes to an object that names its key.
use ooo.Base.{
  Bool, true, [], some, Text, text_eq, text_eq_iff, ◌≡◌, refl, subst, Option-cases, ℕ, arith,
  Bool-cases, inl, inr, ℤ, has,
}
use ooo.Key.{is_valid, last_index, match}
use ooo.Key.Path.{star}
use ooo.Meta.{Object, Codec, IsCodec}
use ooo.Memory.Table.{
  Table, load, store, delete, delete_if, load-store, load-delete_if, IsTable, store-IsTable,
  delete_if-IsTable,
}
use ooo.Memory.State.{Db}
use ooo.Memory.Notify.{notify-mem}
use ooo.Memory.Effects.{stores, set-mem, set_with_meta-mem, del-mem}
use ooo.Memory.Patches.{patched, patched_inv, patch_entry-state, patch-keeps}
use ooo.Memory.Writes.{Merge, entry, set, patch_entry, patch, set_with_meta, del}

module _ (codec : Codec) where
  -- The value of a key.
  pub record IsEntry (key value : Text) : Type 0 where
    pub valid : is_valid key ≡ true
    pub object : Object
    pub decodes : codec.decode_object value ≡ some object
    pub names_path : object.path ≡ key
    pub names_index : object.index ≡ last_index key
    pub json : codec.is_json object.body ≡ true

  pub record IsWell (mem : Table Text) : Type 0 where
    pub table : IsTable mem
    pub entries : (key value : Text) → load key mem ≡ some value → IsEntry key value

  pub IsWell-nil : IsWell []
  IsWell-nil = unfold load in record { table = tt; entries = λ key value h. absurd (ground arith) }

  pub store-IsWell :
      (k v : Text) (mem : Table Text) → IsEntry k v → IsWell mem → IsWell (store k v mem)
  store-IsWell k v mem e w = record {
    table = store-IsTable k v mem w.table;
    entries = λ key value h. elim (Bool-cases (text_eq k key)) [
      | inl s ↦
          let same : k ≡ key = (text_eq_iff k key).0 s in
          let new : v ≡ value = ground (arith, load-store k key v mem) in
          subst (λ x. IsEntry key x) new (subst (λ x. IsEntry x v) same e)
      | inr n ↦ w.entries key value (ground (arith, load-store k key v mem))
    ];
  }

  pub delete_if-IsWell :
      (p : Text → Bool) (mem : Table Text) → IsWell mem → IsWell (delete_if p mem)
  delete_if-IsWell p mem w = record {
    table = delete_if-IsTable p mem w.table;
    entries = λ key value h. w.entries key value (ground (arith, load-delete_if p key mem));
  }

  module _ (laws : IsCodec codec) where
    -- What a write encodes is an entry.
    pub encoded-IsEntry :
        (o : Object)
        → is_valid o.path ≡ true
        → o.index ≡ last_index o.path
        → codec.is_json o.body ≡ true
        → IsEntry o.path (codec.encode_object o)
    encoded-IsEntry o valid index json = record {
      valid = valid;
      object = record o { body = codec.compact o.body };
      decodes = laws.round_trip o json;
      names_path = refl;
      names_index = index;
      json = laws.compact_json o.body json;
    }

    store-entry-IsWell :
        (now : ℤ) (path body : Text) (mem : Table Text)
        → is_valid path ≡ true
        → codec.is_json body ≡ true
        → IsWell mem
        → IsWell (store path (entry codec mem path body now) mem)
    store-entry-IsWell now path body mem v j w =
        store-IsWell path _ mem (unfold entry in encoded-IsEntry _ v refl j) w

    pub set-IsWell :
        (now : ℤ) (path body : Text) (db : Db)
        → codec.is_json body ≡ true
        → IsWell db.mem
        → IsWell (set codec now path body db).1.mem
    set-IsWell now path body db j w = rw set-mem (elim (Bool-cases (stores path body)) [
      | inl e ↦ rw e (store-entry-IsWell now path body db.mem (ground arith) j w)
      | inr e ↦ rw e w
    ])

    pub set_with_meta-IsWell :
        (path body : Text) (created updated : ℤ) (db : Db)
        → codec.is_json body ≡ true
        → IsWell db.mem
        → IsWell (set_with_meta codec path body created updated db).1.mem
    set_with_meta-IsWell path body created updated db j w =
        rw set_with_meta-mem (elim (Bool-cases (is_valid path)) [
          | inl e ↦ rw e (store-IsWell path _ db.mem (encoded-IsEntry _ e refl j) w)
          | inr e ↦ rw e w
        ])

    pub del-IsWell : (path : Text) (db : Db) → IsWell db.mem → IsWell (del path db).1.mem
    del-IsWell path db w = rw del-mem (elim (Bool-cases (has star path)) [
      | inl e ↦ rw e (delete_if-IsWell (match path) db.mem w)
      | inr e ↦ rw e (unfold delete in delete_if-IsWell (text_eq path) db.mem w)
    ])

    -- What `MergeBytes` returns is JSON.
    module _ (merge : Merge)
        (merge_json : (a b m : Text) (n : ℕ)
          → merge a b ≡ some (m, n)
          → codec.is_json m ≡ true) where
      patch_entry-IsWell :
          (now : ℤ) (path body : Text) (db : Db)
          → IsWell db.mem
          → IsWell (patch_entry codec merge now path body db).1.mem
      patch_entry-IsWell now path body db w =
          rw patch_entry-state (elim (Option-cases (patched codec merge now path body db)) [
            | inl e ↦ rw e w
            | inr (m, e) ↦
                let (raw, o, n, l, d, g, _) = patched_inv codec merge now path body db m e in
                rw e (
                  store-entry-IsWell now path m db.mem (w.entries path raw l).valid
                    (merge_json o.body body m n g) w)
          ])

      pub patch-IsWell :
          (now : ℤ) (path body : Text) (db : Db)
          → IsWell db.mem
          → IsWell (patch codec merge now path body db).1.mem
      patch-IsWell now path body db w =
          patch-keeps codec merge now body (λ d. IsWell d.mem)
            (λ key d h. patch_entry-IsWell now key body d h) (λ p d h. rw notify-mem h) path db w
