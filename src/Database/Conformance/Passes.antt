-- ===== src/Database/Conformance/Passes.antt =====
-- The in-memory storage (memory.go) passes the tests of storageTest.go.
use ooo.Base.{
  Bool, true, false, [], Option, none, some, Text, text_eq_refl, codes, is_empty, has, ◌≡◌, refl,
  ◌∙◌, ap, sym, subst, arith, ℤ, pos,
}
use ooo.Key.{is_valid, last_index, glob_regex, is_word, ends_in_word}
use ooo.Key.Path.{star}
use ooo.Meta.{Object, Codec, IsCodec}
use ooo.Memory.Table.{load, store, load-store, load-delete}
use ooo.Memory.State.{
  not_found, set as set_event, Error, returned, Db, IsStarted, Operation, notify, ◌>>=◌, continue,
}
use ooo.Memory.Writes
use ooo.Memory.Writes.{Merge, entry}
use ooo.Memory.Contents.{written, decode-entry}
use ooo.Memory.Effects.{stores, set-mem, set-returned, del-mem, del-returned}
use ooo.Memory.Reads
use ooo.Database.{Database}
use ooo.Database.InMemory.{in_memory}
use ooo.Database.Conformance.{require_object, storage_object_test}

pub notify-IsStarted :
    (operation : Operation) (path : Text) (db : Db)
    → IsStarted db
    → IsStarted (notify operation path db).1
unfolding notify
notify-IsStarted operation path db h = record {
  storage = λ e. ground (arith, h.storage);
  watcher = λ a e. ground (arith, h.storage, h.watcher);
}

module _ {S : Type 0} (codec : Codec) (same : Text → Text → Bool) (data_base : Database S)
    (now later : ℤ) (body update : Text) (s0 s1 s2 s3 s4 : S) (i j b c : Text) (o p : Object)
    (e : Option Error) where
  -- The test passes if the storage answers as it asks.
  storage_object_test-passes :
      data_base.clear s0 ≡ (returned tt, s1)
      → data_base.set now (codes "test") body s1 ≡ (returned (i, none), s2)
      → is_empty i ≡ false
      → data_base.get (codes "test") s2 ≡ (returned (b, none), s2)
      → codec.decode_object b ≡ some o
      → same o.body body ≡ true
      → o.updated ≡ pos 0
      → data_base.set later (codes "test") update s2 ≡ (returned (j, none), s3)
      → is_empty j ≡ false
      → data_base.get (codes "test") s3 ≡ (returned (c, none), s3)
      → codec.decode_object c ≡ some p
      → same p.body update ≡ true
      → data_base.del (codes "test") s3 ≡ (returned none, s4)
      → data_base.get (codes "test") s4 ≡ (returned ([], e), s4)
      → storage_object_test codec same data_base now later body update s0 ≡ (returned tt, s4)
  unfolding storage_object_test
  storage_object_test-passes h1 h2 h3 h4 h5 h6 h7 h8 h9 h10 h11 h12 h13 h14 =
      rw
        (
          h1, h2, h3, h4, continue, ◌>>=◌, require_object, h5, h6, h7, h8, h9, h10, continue, ◌>>=◌,
          require_object, h11, h12, h13, h14,
        )
        refl

-- What a write of a single key leaves in a started storage.
module _ (codec : Codec) (now : ℤ) (path body : Text) (db : Db) (stored : stores path body ≡ true)
    (started : IsStarted db) where
  abbrev pub after_set : Db
  after_set = (Writes.set codec now path body db).1

  pub set-run : Writes.set codec now path body db ≡ (returned (last_index path, none), after_set)
  set-run = ap (λ t. (t, after_set)) (set-returned codec now path body db started ∙ rw stored)

  pub set-load : load path after_set.mem ≡ some (entry codec db.mem path body now)
  set-load =
      ap (load path) (set-mem codec now path body db ∙ rw stored)
      ∙ load-store path path (entry codec db.mem path body now) db.mem
      ∙ rw (text_eq_refl path)

  pub set-IsStarted : IsStarted after_set
  set-IsStarted =
      let stored_db : Db = record db {
        mem = store path (entry codec db.mem path body now) db.mem;
      } in
      let e : after_set ≡ (notify set_event path stored_db).1 = unfold Writes.set in ground arith in
      subst IsStarted (sym e) (
        notify-IsStarted set_event path stored_db
          (record { storage = started.storage; watcher = started.watcher }))

module _ (codec : Codec) (path : Text) (db : Db) (plain : has star path ≡ false) where
  pub get-run :
      (value : Text) → load path db.mem ≡ some value → Reads.get codec path db.mem ≡ (value, none)
  get-run value l = unfold Reads.get Reads.get_ordered in ground arith

  pub del-run :
      (value : Text)
      → IsStarted db
      → load path db.mem ≡ some value
      → Writes.del path db ≡ (returned none, (Writes.del path db).1)
  del-run value h l = ap (λ t. (t, (Writes.del path db).1)) (del-returned path db h ∙ rw (plain, l))

  pub del-get : Reads.get codec path (Writes.del path db).1.mem ≡ ([], some not_found)
  del-get =
      let gone : load path (Writes.del path db).1.mem ≡ none =
        ap (load path) (del-mem path db ∙ rw plain)
        ∙ load-delete path path db.mem
        ∙ rw (text_eq_refl path) in
      unfold Reads.get Reads.get_ordered in ground arith

stores_test : (body : Text) → is_empty body ≡ false → stores (codes "test") body ≡ true
unfolding is_valid glob_regex is_word ends_in_word
stores_test body n = rw n refl

-- `StorageObjectTest` passes on every started in-memory storage, whatever it holds, for any two
-- JSON documents that are not empty and any readings of the clock, if the comparison of documents
-- takes a compacted one for the same.
pub storage_object_test_lem :
    (codec : Codec) (merge : Merge) (same : Text → Text → Bool) (now later : ℤ) (body update : Text)
    (db : Db)
    → IsCodec codec
    → ((s : Text) → codec.is_json s ≡ true → same (codec.compact s) s ≡ true)
    → (is_empty body ≡ false) × (codec.is_json body ≡ true)
    → (is_empty update ≡ false) × (codec.is_json update ≡ true)
    → IsStarted db
    → (storage_object_test codec same (in_memory codec merge) now later body update db).0
      ≡ returned tt
storage_object_test_lem codec merge same now later body update db laws reads_back (n, j) (n', j')
      h =
    let test = codes "test" in
    let db1 : Db = record db { mem = [] } in
    let h1 : IsStarted db1 = record { storage = h.storage; watcher = h.watcher } in
    let st : stores test body ≡ true = stores_test body n in
    let st' : stores test update ≡ true = stores_test update n' in
    let db2 = (Writes.set codec now test body db1).1 in
    let h2 = set-IsStarted codec now test body db1 st h1 in
    let l2 = set-load codec now test body db1 st h1 in
    let db3 = (Writes.set codec later test update db2).1 in
    let h3 = set-IsStarted codec later test update db2 st' h2 in
    let l3 = set-load codec later test update db2 st' h2 in
    let b = entry codec [] test body now in
    let c = entry codec db2.mem test update later in
    ap (λ t. t.0)
      (storage_object_test-passes codec same (in_memory codec merge) now later body update db db1
        db2 db3 (Writes.del test db3).1 (last_index test) (last_index test) b c
        (written codec laws [] test body now) (written codec laws db2.mem test update later)
        (some not_found) (unfold Writes.clear in refl) (set-run codec now test body db1 st h1)
        (unfold last_index in refl) (ap (λ t. (returned t, db2)) (get-run codec test db2 refl b l2))
        (decode-entry codec laws [] test body now j) (reads_back body j)
        (unfold Writes.peek load in refl) (set-run codec later test update db2 st' h2)
        (unfold last_index in refl) (ap (λ t. (returned t, db3)) (get-run codec test db3 refl c l3))
        (decode-entry codec laws db2.mem test update later j') (reads_back update j')
        (del-run codec test db3 refl c h3 l3)
        (ap (λ t. (returned t, (Writes.del test db3).1)) (del-get codec test db3 refl)))
