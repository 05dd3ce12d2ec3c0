-- ===== src/Server/Workers/Unfiltered.antt =====
-- A server without filters for reads reads documents only, whatever is written to its storage
-- (memory.go), if the JSON library writes documents or nothing.
use ooo.Base.{
  Bool, true, [], List, some, Text, text_eq, is_empty, has, ◌≡◌, sym, subst, ◌⊎◌, inl, inr, arith,
  Bool-cases, Option-cases, ℤ, ℕ,
}
use ooo.Key.{match}
use ooo.Key.Path.{star}
use ooo.Meta.{Object, Codec, empty_object, sort, sort_asc}
use ooo.Memory.Table.{Table, load, store, delete_if, delete, load-store, load-delete_if}
use ooo.Memory.State.{Db}
use ooo.Memory.Notify.{notify-mem}
use ooo.Memory.Effects.{stores, set-mem, del-mem}
use ooo.Memory.Patches.{patched, patch_entry-state, patch-keeps}
use ooo.Memory.Writes.{Merge, entry, set, patch_entry, patch, del}
use ooo.Memory.Reads.{get, get_ordered, objects_if}
use ooo.Memory.Run.{Request, step}
use ooo.Filters.{check, first_match}
use ooo.Messages.{Wire}
use ooo.Stream.{Differ}
use ooo.Sync.{IsWire}
use ooo.Server.{Server, get_filtered_data}
use ooo.Server.Workers.{is_told}
use ooo.Server.Workers.Documents.{AlwaysDocuments, LeadsTo, here, written, taken}

module _ (codec : Codec) (is_document : Text → Bool) where
  -- A document, or nothing, which a read takes for an entry that is not there.
  abbrev pub IsClean : Text → Type 0
  IsClean s = (is_empty s ≡ true) ⊎ (is_document s ≡ true)

  abbrev pub AreClean : Table Text → Type 0
  AreClean mem = (key value : Text) → load key mem ≡ some value → IsClean value

  store-AreClean :
      (k v : Text) (mem : Table Text) → IsClean v → AreClean mem → AreClean (store k v mem)
  store-AreClean k v mem c h key value e = elim (Bool-cases (text_eq k key)) [
    | inl s ↦ let new : v ≡ value = ground (arith, load-store k key v mem) in subst IsClean new c
    | inr n ↦ h key value (ground (arith, load-store k key v mem))
  ]

  delete_if-AreClean :
      (p : Text → Bool) (mem : Table Text) → AreClean mem → AreClean (delete_if p mem)
  delete_if-AreClean p mem h key value e = h key value (ground (arith, load-delete_if p key mem))

  module _ (merge : Merge) (objects : (o : Object) → IsClean (codec.encode_object o)) where
    entry-IsClean :
        (now : ℤ) (path body : Text) (mem : Table Text) → IsClean (entry codec mem path body now)
    entry-IsClean now path body mem = unfold entry in objects _

    set-AreClean :
        (now : ℤ) (path body : Text) (db : Db)
        → AreClean db.mem
        → AreClean (set codec now path body db).1.mem
    set-AreClean now path body db h =
        subst AreClean (sym (set-mem codec now path body db))
          (elim (Bool-cases (stores path body)) [
            | inl e ↦ rw e (store-AreClean path _ db.mem (entry-IsClean now path body db.mem) h)
            | inr e ↦ rw e h
          ])

    patch_entry-AreClean :
        (now : ℤ) (path body : Text) (db : Db)
        → AreClean db.mem
        → AreClean (patch_entry codec merge now path body db).1.mem
    patch_entry-AreClean now path body db h =
        subst (λ (d : Db). AreClean d.mem) (sym (patch_entry-state codec merge now path body db))
          (elim (Option-cases (patched codec merge now path body db)) [
            | inl e ↦ rw e h
            | inr (m, e) ↦ rw e (store-AreClean path _ db.mem (entry-IsClean now path m db.mem) h)
          ])

    patch-AreClean :
        (now : ℤ) (path body : Text) (db : Db)
        → AreClean db.mem
        → AreClean (patch codec merge now path body db).1.mem
    patch-AreClean now path body db h =
        patch-keeps codec merge now body (λ d. AreClean d.mem)
          (λ key d k. patch_entry-AreClean now key body d k) (λ p d k. rw notify-mem k) path db h

    del-AreClean : (path : Text) (db : Db) → AreClean db.mem → AreClean (del path db).1.mem
    del-AreClean path db h =
        subst AreClean (sym (del-mem path db)) (elim (Bool-cases (has star path)) [
          | inl e ↦ rw e (delete_if-AreClean (match path) db.mem h)
          | inr e ↦ rw e (unfold delete in delete_if-AreClean (text_eq path) db.mem h)
        ])

    step-AreClean :
        (r : Request) (db : Db)
        → is_told db.no_broadcast_keys r ≡ true
        → AreClean db.mem
        → AreClean (step codec merge r db).mem
    unfolding step is_told
    step-AreClean (Request.set now path body) db t h = set-AreClean now path body db h
    step-AreClean (Request.patch now path body) db t h = patch-AreClean now path body db h
    step-AreClean (Request.del path) db t h = del-AreClean path db h
    step-AreClean (Request.set_with_meta path body c u) db t h = absurd (ground arith)
    step-AreClean Request.clear db t h = absurd (ground arith)
    step-AreClean (Request.start l) db t h = absurd (ground arith)
    step-AreClean Request.close db t h = absurd (ground arith)
    step-AreClean (Request.get_and_lock path) db t h = absurd (ground arith)
    step-AreClean (Request.set_and_unlock now path body) db t h = absurd (ground arith)
    step-AreClean (Request.unlock path) db t h = absurd (ground arith)

    -- What `Get` returns, beside an error too.
    get-IsClean :
        (lists : (l : List Object) (b : Text) → codec.encode_list l ≡ some b → IsClean b)
        (key : Text) (mem : Table Text)
        → AreClean mem
        → IsClean (get codec key mem).0
    unfolding get get_ordered
    get-IsClean lists key mem h = elim (Bool-cases (has star key)) [
      | inr n ↦ elim (Option-cases (load key mem)) [
        | inl e ↦ inl (ground arith)
        | inr (v, e) ↦ rw (n, e) (h key v e)
      ]
      | inl n ↦
          elim (Option-cases
            (codec.encode_list (sort sort_asc (objects_if codec (match key) mem)))) [
              | inl e ↦ inl (ground arith)
              | inr (b, e) ↦ rw (n, e) (lists _ b e)
            ]
    ]

    module _ (d : Differ) (wire : Wire) {V : Type 0} (value : Text → V)
        (laws : IsWire d wire value is_document) (deliver : ℕ → Bool) where
      LeadsTo-AreClean :
          (db later : Db)
          → LeadsTo codec merge d wire value is_document laws deliver db later
          → AreClean db.mem
          → AreClean later.mem
      LeadsTo-AreClean db later here h = h
      LeadsTo-AreClean db later (written r t leads) h =
          LeadsTo-AreClean _ later leads (step-AreClean r db t h)
      LeadsTo-AreClean db later (taken before after e w leads) h = LeadsTo-AreClean _ later leads h

      -- Without filters for reads, what is read is documents if what is stored at the start is, or
      -- is nothing, and if the JSON library writes documents or nothing.
      pub unfiltered-AlwaysDocuments :
          (lists : (l : List Object) (b : Text) → codec.encode_list l ≡ some b → IsClean b)
          (app : Server)
          → is_document empty_object ≡ true
          → app.filters.read ≡ []
          → AreClean app.storage.mem
          → AlwaysDocuments codec merge d wire value is_document laws deliver app
      unfolding get_filtered_data check first_match
      unfiltered-AlwaysDocuments lists app nothing none_ h db leads key body e =
          let raw = (get codec key db.mem).0 in
          let c : IsClean raw =
            get-IsClean lists key db.mem (LeadsTo-AreClean app.storage db leads h) in
          elim (Bool-cases (is_empty raw)) [
            | inl n ↦
                let same : empty_object ≡ body = ground arith in
                subst (λ t. is_document t ≡ true) same nothing
            | inr n ↦
                let same : raw ≡ body = ground arith in
                subst (λ t. is_document t ≡ true) same (ground arith)
          ]
