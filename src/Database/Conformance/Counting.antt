-- ===== src/Database/Conformance/Counting.antt =====
-- The loop of `StorageGetNTest` (storageTest.go) on the in-memory storage (memory.go).
use ooo.Base.{
  ℕ, suc, ◌+◌, ◌<◌, ◌≤◌, Bool, true, false, List, [], ◌∷◌, ◌++◌, none, some, Text, text_eq_refl,
  codes, length, is_empty, itoa, ℤ, pos, ◌≡◌, refl, ◌∙◌, ap, sym, arith,
}
use mathlib.Core.List.{append-nil}
use ooo.Key.{match, last_index}
use ooo.Meta.{Object, Codec, IsCodec}
use ooo.Memory.Table.{Table, load, store, load-store}
use ooo.Memory.State.{returned, Db, IsStarted, ◌>>=◌, continue}
use ooo.Memory.Writes
use ooo.Memory.Writes.{Merge, entry, peek}
use ooo.Memory.Effects.{stores, set-mem}
use ooo.Memory.Contents.{decode-entry}
use ooo.Memory.Reads.{objects_if}
use ooo.Database.{Database}
use ooo.Database.InMemory.{in_memory}
use ooo.Database.Conformance.Numbered.{numbered, set_numbered}
use ooo.Database.Conformance.Numbers.{
  numbered-has-star, numbered-is_valid, numbered-last_index, numbered-match,
}
use ooo.Database.Conformance.Decimals.{ten_to, numbered-injective}
use ooo.Database.Conformance.Rising.{numbered_object, numbered_objects, append-cons}
use ooo.Database.Conformance.Passes.{set-run, set-IsStarted}

module _ {S : Type 0} (codec : Codec) (data_base : Database S) where
  set_numbered-passes :
      (body : Text) (i : ℕ) (now : ℤ) (times : List ℤ) (s s' : S)
      → data_base.set now (numbered i) body s ≡ (returned (itoa i, none), s')
      → set_numbered codec data_base body i (now ∷ times) s
        ≡ set_numbered codec data_base body (suc i) times s'
  unfolding set_numbered
  set_numbered-passes body i now times s s' h = rw (h, continue, ◌>>=◌, text_eq_refl (itoa i)) refl

-- The objects of a map when one comes whose key is not there.
objects_if-new :
    (codec : Codec) (p : Text → Bool) (key value : Text) (o : Object) (mem : Table Text)
    → load key mem ≡ none
    → p key ≡ true
    → codec.decode_object value ≡ some o
    → objects_if codec p (store key value mem) ≡ objects_if codec p mem ++ o ∷ []
unfolding objects_if store load
objects_if-new codec p key value o [] l e d = rw (e, d) refl
objects_if-new codec p key value o ((k, v) ∷ mem) l e d =
    ground (arith, objects_if-new codec p key value o mem)

module _ (codec : Codec) (merge : Merge) (laws : IsCodec codec) (body : Text)
    (filled : is_empty body ≡ false) (json : codec.is_json body ≡ true) where
  abbrev pub listed : Table Text → List Object
  listed = objects_if codec (match (codes "test/*"))

  -- The storage holds objects under test/*, and none under the numbers from `i` on.
  pub record Reached (i : ℕ) (objects : List Object) (db : Db) : Type 0 where
    pub started : IsStarted db
    pub holds : listed db.mem ≡ objects
    pub free : (j : ℕ) → i ≤ j → j < ten_to 19 → load (numbered j) db.mem ≡ none

  module _ (i : ℕ) (now : ℤ) (objects : List Object) (db : Db) (small : i < ten_to 19)
      (h : Reached i objects db) where
    abbrev next : Db
    next = (Writes.set codec now (numbered i) body db).1

    stored_under : stores (numbered i) body ≡ true
    stored_under = rw (numbered-is_valid i, numbered-has-star i, filled) refl

    abbrev value : Text
    value = entry codec db.mem (numbered i) body now

    next-mem : next.mem ≡ store (numbered i) value db.mem
    next-mem = set-mem codec now (numbered i) body db ∙ rw stored_under

    next-run : Writes.set codec now (numbered i) body db ≡ (returned (itoa i, none), next)
    next-run =
        set-run codec now (numbered i) body db stored_under h.started
        ∙ ap (λ t. (returned (t, none), next)) (numbered-last_index i)

    new_times : peek codec db.mem (numbered i) now ≡ (now, pos 0)
    unfolding peek
    new_times = let l = h.free i (omega arith) small in ground arith

    decoded : codec.decode_object value ≡ some (numbered_object (codec.compact body) i now)
    decoded =
        decode-entry codec laws db.mem (numbered i) body now json
        ∙ ap
            (λ (t : ℤ × ℤ). some (record {
              created = t.0;
              updated = t.1;
              index = last_index (numbered i);
              path = numbered i;
              body = codec.compact body;
            }))
            new_times
        ∙ ap
            (λ (t : Text). some (record {
              created = now;
              updated = pos 0;
              index = t;
              path = numbered i;
              body = codec.compact body;
            }))
            (numbered-last_index i)

    next-Reached : Reached (suc i) (objects ++ numbered_object (codec.compact body) i now ∷ []) next
    next-Reached = record {
      started = set-IsStarted codec now (numbered i) body db stored_under h.started;
      holds =
          ap listed next-mem
          ∙ objects_if-new codec (match (codes "test/*")) (numbered i) value
              (numbered_object (codec.compact body) i now) db.mem (h.free i (omega arith) small)
              (numbered-match i) decoded
          ∙ ap (λ l. l ++ numbered_object (codec.compact body) i now ∷ []) h.holds;
      free = λ j a b.
          ap (load (numbered j)) next-mem
          ∙ load-store (numbered i) (numbered j) value db.mem
          ∙ rw (numbered-injective i j small b (omega (arith, a))) (h.free j (omega (arith, a)) b);
    }

  pub set_numbered-Reached :
      (i : ℕ) (times : List ℤ) (objects : List Object) (db : Db)
      → i + length times < ten_to 19
      → Reached i objects db
      → (db' : Db) × (set_numbered codec (in_memory codec merge) body i times db
          ≡ (returned tt, db'))
        × IsStarted db'
        × (listed db'.mem ≡ objects ++ numbered_objects (codec.compact body) i times)
  set_numbered-Reached i [] objects db small h = (
    db,
    unfold set_numbered in refl,
    Reached.started h,
    Reached.holds h ∙ sym (append-nil objects),
  )
  set_numbered-Reached i (now ∷ times) objects db small h =
      let first : i < ten_to 19 = omega (arith, small) in
      let (db', run, started, holds) =
        set_numbered-Reached (suc i) times
          (objects ++ numbered_object (codec.compact body) i now ∷ [])
          (next i now objects db first h) (omega (arith, small))
          (next-Reached i now objects db first h) in
      (
        db',
        set_numbered-passes codec (in_memory codec merge) body i now times db
              (next i now objects db first h) (next-run i now objects db first h)
            ∙ run,
        started,
        holds
            ∙ append-cons objects (numbered_object (codec.compact body) i now)
                (numbered_objects (codec.compact body) (suc i) times),
      )
