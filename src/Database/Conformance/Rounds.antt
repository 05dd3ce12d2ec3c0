-- ===== src/Database/Conformance/Rounds.antt =====
-- The in-memory storage (memory.go) passes any number of rounds of `StorageSetGetDelTest`.
use ooo.Base.{
  ℕ, Bool, true, false, List, [], ◌∷◌, ◌++◌, none, some, Text, text_eq_iff, text_eq_refl, codes,
  is_empty, has, ◌≡◌, refl, ◌∙◌, ap, sym, subst, arith, map, ℤ, pos,
}
use ooo.Key.{glob_regex, is_word, ends_in_word, is_valid, match, last_index, build}
use ooo.Key.Path.{star}
use ooo.Key.Stamp.{build-prefix}
use ooo.Key.Built.{build-is_valid}
use ooo.Meta.{Object, Codec, IsCodec, sort, sort_onto}
use ooo.Memory.Table.{Table, load, store, delete, delete_if}
use ooo.Memory.State.{returned, Db, IsStarted, del as del_event, notify, ◌>>=◌, continue}
use ooo.Memory.Writes
use ooo.Memory.Writes.{Merge, entry}
use ooo.Memory.Contents.{written, decode-entry}
use ooo.Memory.Effects.{stores, set-mem, del-mem}
use ooo.Memory.Reads
use ooo.Database.{Database}
use ooo.Database.InMemory.{in_memory}
use ooo.Database.Conformance.{require_object, set_get_del_round, set_get_del_test}
use ooo.Database.Conformance.Passes.{
  notify-IsStarted, set-run, set-load, set-IsStarted, get-run, del-run,
}

-- The key of a round.
abbrev round_key : ℤ → Text
round_key built = codes "test/" ++ build built (codes "test/*")

module _ {S : Type 0} (codec : Codec) (same : Text → Text → Bool) (data_base : Database S)
    (body : Text) (built now : ℤ) (s1 s2 s3 : S) (i b : Text) (o : Object) where
  set_get_del_round-passes :
      data_base.set now (round_key built) body s1 ≡ (returned (i, none), s2)
      → data_base.get (round_key built) s2 ≡ (returned (b, none), s2)
      → codec.decode_object b ≡ some o
      → same o.body body ≡ true
      → data_base.del (round_key built) s2 ≡ (returned none, s3)
      → data_base.get (codes "test/*") s3 ≡ (returned (codes "[]", none), s3)
      → set_get_del_round codec same data_base body built now s1 ≡ (returned tt, s3)
  unfolding set_get_del_round
  set_get_del_round-passes h1 h2 h3 h4 h5 h6 =
      rw (h1, h2, continue, ◌>>=◌, require_object, h3, h4, h5, h6) refl

-- Without objects of a pattern there are none after a key was stored and deleted.
module _ (codec : Codec) (p : Text → Bool) (key : Text) where
  objects_if-delete_nil :
      (mem : Table Text)
      → Reads.objects_if codec p mem ≡ []
      → Reads.objects_if codec p (delete key mem) ≡ []
  unfolding Reads.objects_if delete delete_if
  objects_if-delete_nil [] h = refl
  objects_if-delete_nil ((k, v) ∷ mem) h = ground (arith, objects_if-delete_nil mem)

  objects_if-delete_stored :
      (value : Text) (mem : Table Text)
      → Reads.objects_if codec p mem ≡ []
      → Reads.objects_if codec p (delete key (store key value mem)) ≡ []
  unfolding Reads.objects_if delete delete_if store
  objects_if-delete_stored value [] h = ground (arith, text_eq_refl key)
  objects_if-delete_stored value ((k, v) ∷ mem) h = ground (
    arith,
    text_eq_iff k key,
    text_eq_iff key k,
    objects_if-delete_nil mem,
    objects_if-delete_stored value mem,
  )

round_key-is_valid :
    (n : ℕ) → (is_valid (round_key (pos n)) ≡ true) × (has star (round_key (pos n)) ≡ false)
round_key-is_valid n =
    let e : build (pos n) (codes "test/test/*") ≡ round_key (pos n) =
      build-prefix (codes "test/test") n refl
      ∙ sym (ap (λ t. codes "test/" ++ t) (build-prefix (codes "test") n refl)) in
    subst (λ k. (is_valid k ≡ true) × (has star k ≡ false)) e
      (build-is_valid (codes "test/test") n refl
        (unfold is_valid glob_regex is_word ends_in_word in refl))

module _ (codec : Codec) (merge : Merge) (same : Text → Text → Bool) (body : Text)
    (laws : IsCodec codec)
    (reads_back : (s : Text) → codec.is_json s ≡ true → same (codec.compact s) s ≡ true)
    (empty_list : codec.encode_list [] ≡ some (codes "[]")) (filled : is_empty body ≡ false)
    (json : codec.is_json body ≡ true) where
  -- The storage has no object of the pattern of the test.
  abbrev IsFree : Db → Type 0
  IsFree db = Reads.objects_if codec (match (codes "test/*")) db.mem ≡ []

  free-get : (db : Db) → IsFree db → Reads.get codec (codes "test/*") db.mem ≡ (codes "[]", none)
  free-get db f = unfold Reads.get Reads.get_ordered sort sort_onto in ground (arith, empty_list)

  module _ (n : ℕ) (now : ℤ) (db : Db) (started : IsStarted db) (free : IsFree db) where
    abbrev key : Text
    key = round_key (pos n)

    stored_key : stores key body ≡ true
    stored_key = let (v, s) = round_key-is_valid n in rw (v, s, filled) refl

    abbrev after_write : Db
    after_write = (Writes.set codec now key body db).1

    abbrev after_round : Db
    after_round = (Writes.del key after_write).1

    written_key : load key after_write.mem ≡ some (entry codec db.mem key body now)
    written_key = set-load codec now key body db stored_key started

    round-IsStarted : IsStarted after_round
    round-IsStarted =
        let h = set-IsStarted codec now key body db stored_key started in
        let plain = (round_key-is_valid n).1 in
        let e : after_round
            ≡ (notify del_event key (record after_write { mem = delete key after_write.mem })).1 =
          unfold Writes.del in ground (arith, written_key, plain) in
        subst IsStarted (sym e) (
          notify-IsStarted del_event key (record after_write { mem = delete key after_write.mem })
            (record { storage = h.storage; watcher = h.watcher }))

    round-IsFree : IsFree after_round
    round-IsFree =
        let value = entry codec db.mem key body now in
        let e : after_round.mem ≡ delete key (store key value db.mem) =
          del-mem key after_write
          ∙ (rw ((round_key-is_valid n).1) refl)
          ∙ ap (delete key) (set-mem codec now key body db ∙ rw stored_key) in
        subst (λ mem. Reads.objects_if codec (match (codes "test/*")) mem ≡ []) (sym e)
          (objects_if-delete_stored codec (match (codes "test/*")) key value db.mem free)

    round-run :
        set_get_del_round codec same (in_memory codec merge) body (pos n) now db
        ≡ (returned tt, after_round)
    round-run =
        let value = entry codec db.mem key body now in
        let plain = (round_key-is_valid n).1 in
        let h = set-IsStarted codec now key body db stored_key started in
        set_get_del_round-passes codec same (in_memory codec merge) body (pos n) now db after_write
          after_round (last_index key) value (written codec laws db.mem key body now)
          (set-run codec now key body db stored_key started)
          (ap (λ t. (returned t, after_write))
            (get-run codec key after_write plain value written_key))
          (decode-entry codec laws db.mem key body now json) (reads_back body json)
          (del-run codec key after_write plain value h written_key)
          (ap (λ t. (returned t, after_round)) (free-get after_round round-IsFree))

-- `StorageSetGetDelTest` passes on a started in-memory storage without objects under `test/*`, for
-- any number of rounds, readings of the clock and JSON document that is not empty, if the
-- comparison of documents takes a compacted one for the same and the JSON library writes the list
-- without objects as `[]`.
pub set_get_del_test_lem :
    (codec : Codec) (merge : Merge) (same : Text → Text → Bool) (body : Text)
    (rounds : List (ℕ × ℤ)) (db : Db)
    → IsCodec codec
    → ((s : Text) → codec.is_json s ≡ true → same (codec.compact s) s ≡ true)
    → codec.encode_list [] ≡ some (codes "[]")
    → is_empty body ≡ false
    → codec.is_json body ≡ true
    → IsStarted db
    → Reads.objects_if codec (match (codes "test/*")) db.mem ≡ []
    → (set_get_del_test codec same
        (in_memory codec merge)
        body
        (map (λ r. (pos r.0, r.1)) rounds)
        db).0
      ≡ returned tt
unfolding set_get_del_test
set_get_del_test_lem codec merge same body [] db laws back empty_list n j h f = refl
set_get_del_test_lem codec merge same body ((built, now) ∷ rounds) db laws back empty_list n j h f =
    let rest =
      set_get_del_test_lem codec merge same body rounds
        (after_round codec merge same body laws back empty_list n j built now db h f) laws back
        empty_list n j
        (round-IsStarted codec merge same body laws back empty_list n j built now db h f)
        (round-IsFree codec merge same body laws back empty_list n j built now db h f) in
    rw (round-run codec merge same body laws back empty_list n j built now db h f) rest
