-- ===== src/Memory/Merged.antt =====
-- What a `Patch` of a pattern (memory.go) leaves of the map: the keys are patched one after the
-- other, up to the first that fails.
pub mod Paths
use ooo.Base.{
  Bool, true, false, ◌||◌, List, [], ◌∷◌, Option, none, some, Text, text_eq, text_eq_iff,
  text_eq_refl, ◌≡◌, refl, ◌∙◌, ap, sym, subst, if◌then◌else◌, arith, Bool-cases, Option-cases, inl,
  inr, ℤ, is_empty, has,
}
use ooo.Key.{is_valid, match}
use ooo.Key.Path.{star}
use ooo.Meta.{Codec}
use ooo.Memory.Table.{Table, IsTable, load, store, keys_if, load-store}
use ooo.Memory.State.{Error, Db, IsStarted, returned, notify, set as set_event}
use ooo.Memory.Writes.{Merge, peek, entry, patch_entry, patch_keys, patch}
use ooo.Memory.Notify.{notify-mem, notify-returned}
use ooo.Memory.Patches.{
  patched, patch_error, patch_entry-state, patch_entry-returned, patch_keys-next, patch_keys-stop,
  patch-state,
}

-- Whether a text is in a list.
abbrev pub is_among : Text → List Text → Bool
is_among k [] = false
is_among k (j ∷ keys) = text_eq j k || is_among k keys

-- No key is there twice.
abbrev pub IsDistinct : List Text → Type 0
IsDistinct [] = Unit
IsDistinct (k ∷ keys) = (is_among k keys ≡ false) × IsDistinct keys

pub keys_if-absent :
    {V : Type 0} (p : Text → Bool) (k : Text) (t : Table V)
    → load k t ≡ none
    → is_among k (keys_if p t) ≡ false
unfolding load keys_if
keys_if-absent p k [] h = refl
keys_if-absent p k ((j, v) ∷ t) h = ground (arith, keys_if-absent p k t)

pub keys_if-IsDistinct :
    {V : Type 0} (p : Text → Bool) (t : Table V) → IsTable t → IsDistinct (keys_if p t)
unfolding keys_if
keys_if-IsDistinct p [] h = tt
keys_if-IsDistinct p ((k, v) ∷ t) h = elim (Bool-cases (p k)) [
  | inl e ↦ rw e (keys_if-absent p k t h.0, keys_if-IsDistinct p t h.1)
  | inr e ↦ rw e (keys_if-IsDistinct p t h.1)
]

module _ (codec : Codec) (merge : Merge) (now : ℤ) (body : Text) where
  -- The value that a patch of a key leaves.
  abbrev pub merged : Text → Db → Option Text
  merged key db = elim (patched codec merge now key body db) [
    | none ↦ load key db.mem
    | some m ↦ some (entry codec db.mem key m now)
  ]

  -- The keys before the first whose patch fails, and its error.
  abbrev pub before_error : List Text → Db → List Text
  before_error [] db = []
  before_error (k ∷ keys) db =
      let rest = before_error keys db in
      elim (patch_error codec merge now k body db) [ none ↦ k ∷ rest | some _ ↦ [] ]

  abbrev pub first_error : List Text → Db → Option Error
  first_error [] db = none
  first_error (k ∷ keys) db =
      let rest = first_error keys db in
      elim (patch_error codec merge now k body db) [ none ↦ rest | some e ↦ some e ]

  -- A patch of a key looks at the value of the key only.
  module _ (key : Text) (db db' : Db) (h : load key db'.mem ≡ load key db.mem) where
    patch_error-same :
        patch_error codec merge now key body db' ≡ patch_error codec merge now key body db
    unfolding patch_error
    patch_error-same = rw (patch_error, h) refl

    patched-same : patched codec merge now key body db' ≡ patched codec merge now key body db
    unfolding patched
    patched-same = rw (patched, h) refl

    entry-same : (m : Text) → entry codec db'.mem key m now ≡ entry codec db.mem key m now
    unfolding entry peek
    entry-same m = rw (entry, peek, h) refl

  merged-none :
      (key : Text) (db : Db)
      → patched codec merge now key body db ≡ none
      → merged key db ≡ load key db.mem
  merged-none key db e = rw (merged, e) refl

  merged-some :
      (key : Text) (db : Db) (m : Text)
      → patched codec merge now key body db ≡ some m
      → merged key db ≡ some (entry codec db.mem key m now)
  merged-some key db m e = rw (merged, e) refl

  merged-same :
      (key : Text) (db db' : Db)
      → load key db'.mem ≡ load key db.mem
      → merged key db' ≡ merged key db
  merged-same key db db' h =
      let p = patched-same key db db' h in
      elim (Option-cases (patched codec merge now key body db)) [
        | inl e ↦ merged-none key db' (p ∙ e) ∙ h ∙ sym (merged-none key db e)
        | inr (m, e) ↦
            merged-some key db' m (p ∙ e)
            ∙ ap some (entry-same key db db' h m)
            ∙ sym (merged-some key db m e)
      ]

  module _ (key : Text) (db : Db) where
    abbrev pub next : Db
    next = (patch_entry codec merge now key body db).1

    pub load-next :
        (j : Text) → load j next.mem ≡ (if text_eq key j then merged key db else load j db.mem)
    load-next j = elim (Option-cases (patched codec merge now key body db)) [
      | inl e ↦
          let same : next ≡ db = patch_entry-state codec merge now key body db ∙ rw e refl in
          ap (λ t. load j t.mem) same
          ∙ found (text_eq key j) refl
          ∙ ap (λ v. if text_eq key j then v else load j db.mem) (sym (merged-none key db e))
      | inr (m, e) ↦
          let value = entry codec db.mem key m now in
          let new : next ≡ record db { mem = store key value db.mem } =
            patch_entry-state codec merge now key body db ∙ rw e refl in
          ap (λ t. load j t.mem) new
          ∙ load-store key j value db.mem
          ∙ ap (λ v. if text_eq key j then v else load j db.mem) (sym (merged-some key db m e))
    ]
      where
        found :
            (b : Bool)
            → text_eq key j ≡ b
            → load j db.mem ≡ (if text_eq key j then load key db.mem else load j db.mem)
        found true e = rw e (ap (λ k. load k db.mem) (sym ((text_eq_iff key j).0 e)))
        found false e = rw e refl

  before_error-same :
      (keys : List Text) (db db' : Db)
      → ((j : Text) → is_among j keys ≡ true → load j db'.mem ≡ load j db.mem)
      → (before_error keys db' ≡ before_error keys db)
        × (first_error keys db' ≡ first_error keys db)
  before_error-same [] db db' h = (refl, refl)
  before_error-same (k ∷ keys) db db' h =
      let (b, f) = before_error-same keys db db' (λ j a. h j (ground arith)) in
      let e = patch_error-same k db db' (h k (ground (arith, text_eq_refl k))) in
      elim (Option-cases (patch_error codec merge now k body db)) [
        | inl o ↦ rw (before_error, first_error, e, o) (ap (λ l. k ∷ l) b, f)
        | inr (x, o) ↦ rw (before_error, first_error, e, o) (refl, refl)
      ]

  before_error-absent :
      (keys : List Text) (db : Db) (j : Text)
      → is_among j keys ≡ false
      → is_among j (before_error keys db) ≡ false
  before_error-absent [] db j h = refl
  before_error-absent (k ∷ keys) db j h =
      let rest = before_error-absent keys db j (ground arith) in
      elim (Option-cases (patch_error codec merge now k body db)) [
        | inl o ↦ rw (before_error, o) (ground arith)
        | inr (x, o) ↦ rw (before_error, o) refl
      ]

  module _ (key : Text) (keys : List Text) (db : Db) (absent : is_among key keys ≡ false) where
    other : (j : Text) → is_among j keys ≡ true → text_eq key j ≡ false
    other j a = elim (Bool-cases (text_eq key j)) [
      | inr e ↦ e
      | inl e ↦
          let same : key ≡ j = (text_eq_iff key j).0 e in
          absurd (cc (ap (λ k. is_among k keys) same))
    ]

    load-other : (j : Text) → text_eq key j ≡ false → load j (next key db).mem ≡ load j db.mem
    load-other j e = load-next key db j ∙ rw e refl

    -- What the keys behind leave, after the patch of the key.
    behind :
        (j : Text) (b : Bool)
        → text_eq key j ≡ b
        → (if is_among j (before_error keys db)
            then merged j (next key db)
            else load j (next key db).mem)
          ≡ (if b || is_among j (before_error keys db) then merged j db else load j db.mem)
    behind j true e =
        let same : key ≡ j = (text_eq_iff key j).0 e in
        rw (before_error-absent keys db j (subst (λ k. is_among k keys ≡ false) same absent))
          (load-next key db j ∙ rw e (ap (λ k. merged k db) same))
    behind j false e = elim (Bool-cases (is_among j (before_error keys db))) [
      | inl a ↦ rw a (merged-same j db (next key db) (load-other j e))
      | inr a ↦ rw a (load-other j e)
    ]

  pub patch_keys_lem :
      (keys : List Text) (db : Db)
      → IsDistinct keys
      → ((patch_keys codec merge now body keys db).0 ≡ returned (first_error keys db))
        × ((j : Text)
            → load j (patch_keys codec merge now body keys db).1.mem
              ≡ (if is_among j (before_error keys db) then merged j db else load j db.mem))
  patch_keys_lem [] db h = unfold patch_keys in (refl, λ j. refl)
  patch_keys_lem (key ∷ keys) db h = elim (Option-cases (patch_error codec merge now key body db)) [
    | inr (x, e) ↦
        rw (before_error, first_error, e)
          (
            unfold patch_keys in
                ground (arith, patch_entry-returned codec merge now key body db, e),
            λ j. ap (λ t. load j t.mem) (patch_keys-stop codec merge now body key keys db x e),
          )
    | inl e ↦
        let (r, l) = patch_keys_lem keys (next key db) h.1 in
        let step : (patch_keys codec merge now body (key ∷ keys) db).0
            ≡ (patch_keys codec merge now body keys (next key db)).0 =
          unfold patch_keys in
          ground (arith, patch_entry-returned codec merge now key body db, e) in
        let (b, f) =
          before_error-same keys db (next key db)
            (λ j a. load-other key keys db h.0 j (other key keys db h.0 j a)) in
        rw (before_error, first_error, e)
          (
            step ∙ r ∙ ap returned f,
            λ j.
                ap (λ t. load j t.mem) (patch_keys-next codec merge now body key keys db e)
                ∙ l j
                ∙ rw b (behind key keys db h.0 j (text_eq key j) refl),
          )
  ]
