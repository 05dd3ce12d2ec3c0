-- ===== src/Database/Conformance/Batches.antt =====
-- The in-memory storage (memory.go) passes `StorageBatchSetTest`: a patch of a pattern is a patch
-- of every key that matches.
use ooo.Base.{
  ℕ, suc, ◌-◌, Bool, true, false, List, [], ◌∷◌, none, some, Text, text_eq, text_eq_iff,
  text_eq_refl, codes, is_empty, ◌≡◌, ◌≢◌, refl, ◌∙◌, ap, arith, ℤ, Bool-cases, Option-cases, inl,
  inr,
}
use ooo.Key.{glob_regex, is_word, ends_in_word, is_valid, match}
use ooo.Meta.{Codec, IsCodec}
use ooo.Memory.Table.{Table, load, keys_if}
use ooo.Memory.State.{returned, Db, IsStarted, ◌>>=◌, continue}
use ooo.Memory.Writes
use ooo.Memory.Writes.{Merge, entry}
use ooo.Memory.Patches.{patched, patch_error}
use ooo.Memory.Merged.{is_among, keys_if-absent, merged, before_error, first_error}
use ooo.Memory.Merged.Paths.{patch_lem}
use ooo.Memory.Contents.{written, decode-entry}
use ooo.Database.{Database}
use ooo.Database.InMemory.{in_memory}
use ooo.Database.Conformance.Numbered.{numbered, set_created, get_numbered, batch_set_test}
use ooo.Database.Conformance.Numbers.{numbered-match}
use ooo.Database.Conformance.Loops.{
  Holds, Loaded, Readable, Holds-Readable, get_numbered-run, set_created-Holds,
}

keys_if-among :
    {V : Type 0} (p : Text → Bool) (k : Text) (t : Table V)
    → load k t ≢ none
    → p k ≡ true
    → is_among k (keys_if p t) ≡ true
unfolding keys_if load
keys_if-among p k [] n e = absurd (n refl)
keys_if-among p k ((j, v) ∷ t) n e = elim (Bool-cases (text_eq j k)) [
  | inl same ↦ let q : p j ≡ true = ap p ((text_eq_iff j k).0 same) ∙ e in rw q (rw same refl)
  | inr other ↦
      let rest = keys_if-among p k t (rw other at n) e in
      elim (Bool-cases (p j)) [ inl q ↦ rw q (rw other rest) | inr q ↦ rw q rest ]
]

module _ {S : Type 0} (codec : Codec) (data_base : Database S) where
  -- The test passes if the storage answers as it asks.
  batch_set_test-passes :
      (body update expected : Text) (now : ℤ) (n : ℕ) (s s1 s2 s3 : S) (index : Text)
      → data_base.clear s ≡ (returned tt, s1)
      → set_created codec data_base body 1 (n - 1) s1 ≡ (returned tt, s2)
      → get_numbered codec data_base body 1 (n - 1) s2 ≡ (returned tt, s2)
      → data_base.patch now (codes "test/*") update s2 ≡ (returned (index, none), s3)
      → get_numbered codec data_base expected 1 (n - 1) s3 ≡ (returned tt, s3)
      → batch_set_test codec data_base body update expected now n s ≡ (returned tt, s3)
  unfolding batch_set_test
  batch_set_test-passes body update expected now n s s1 s2 s3 index h1 h2 h3 h4 h5 =
      rw (h1, continue, ◌>>=◌, h2, h3, h4, h5) refl

-- The patch of all keys that match.
module _ (codec : Codec) (merge : Merge) (laws : IsCodec codec) (body update expected : Text)
    (replaced : ℕ) (now : ℤ) (merges : merge body update ≡ some (expected, suc replaced)) (db : Db)
    (h : Holds codec merge body db) where
  patched-Holds :
      (k : Text)
      → load k db.mem ≢ none
      → (patched codec merge now k update db ≡ some expected)
        × (patch_error codec merge now k update db ≡ none)
  patched-Holds k n = elim (Option-cases (load k db.mem)) [
    | inl e ↦ absurd (n e)
    | inr (v, e) ↦
        let (o, d, same) = h.all k v e in
        let m : merge o.body update ≡ some (expected, suc replaced) =
          ap (λ b. merge b update) same ∙ merges in
        (unfold patched in ground arith, unfold patch_error in ground arith)
  ]

  no_error :
      (keys : List Text)
      → ((k : Text) → is_among k keys ≡ true → load k db.mem ≢ none)
      → (first_error codec merge now update keys db ≡ none)
        × (before_error codec merge now update keys db ≡ keys)
  no_error [] l = (refl, refl)
  no_error (k ∷ keys) l =
      let (e, b) = no_error keys (λ j a. l j (ground arith)) in
      let (_, n) = patched-Holds k (l k (ground (arith, text_eq_refl k))) in
      rw (first_error, before_error, n) (e, ap (λ r. k ∷ r) b)

  among-loaded :
      (p : Text → Bool) (k : Text) → is_among k (keys_if p db.mem) ≡ true → load k db.mem ≢ none
  among-loaded p k a e = absurd (cc (keys_if-absent p k db.mem e))

  patch-Readable :
      (i count : ℕ)
      → is_empty update ≡ false
      → codec.is_json expected ≡ true
      → codec.compact expected ≡ expected
      → Loaded codec merge i count db
      → (Writes.patch codec merge now (codes "test/*") update db ≡ (
        returned (codes "test/*", none),
        (Writes.patch codec merge now (codes "test/*") update db).1,
      ))
        × Readable codec merge expected i count
            (Writes.patch codec merge now (codes "test/*") update db).1
  patch-Readable i count filled json compact l =
      let path = codes "test/*" in
      let keys = keys_if (match path) db.mem in
      let (answer, loads) =
        patch_lem codec merge now update path db
          (unfold is_valid glob_regex is_word ends_in_word in refl) filled h.table h.started in
      let (e, b) = no_error keys (among-loaded (match path)) in
      (
        ap (λ t. (t, (Writes.patch codec merge now path update db).1))
            (answer ∙ ap (λ x. returned (path, x)) e),
        λ j lo hi.
            let here = l j lo hi in
            let among : is_among (numbered j) keys ≡ true =
              keys_if-among (match path) (numbered j) db.mem here (numbered-match j) in
            let (p, _) = patched-Holds (numbered j) here in
            let loaded : load (numbered j) (Writes.patch codec merge now path update db).1.mem
                ≡ some (entry codec db.mem (numbered j) expected now) =
              loads (numbered j) ∙ rw (b, among, merged, p) refl in
            (
              entry codec db.mem (numbered j) expected now,
              written codec laws db.mem (numbered j) expected now,
              loaded,
              decode-entry codec laws db.mem (numbered j) expected now json,
              compact,
            ),
      )

-- `StorageBatchSetTest` passes on every started in-memory storage, whatever it holds, for any
-- number of keys, where the document and the expected one are compact JSON, the patch is not
-- empty, and the merge library makes the expected one of the document and the patch, with a
-- replacement.
pub batch_set_test_lem :
    (codec : Codec) (merge : Merge) (body update expected : Text) (replaced : ℕ) (now : ℤ) (n : ℕ)
    (db : Db)
    → IsCodec codec
    → (codec.is_json body ≡ true) × (codec.compact body ≡ body)
    → (codec.is_json expected ≡ true) × (codec.compact expected ≡ expected)
    → is_empty update ≡ false
    → merge body update ≡ some (expected, suc replaced)
    → IsStarted db
    → (batch_set_test codec (in_memory codec merge) body update expected now n db).0 ≡ returned tt
batch_set_test_lem codec merge body update expected replaced now n db laws (j, c) (j', c') filled
      merges h =
    let db1 : Db = record db { mem = [] } in
    let h1 : Holds codec merge body db1 = record {
      started = record { storage = h.storage; watcher = h.watcher };
      table = tt;
      all = λ k v e. absurd (unfold load in cc);
    } in
    let (db2, run, h2, l, _) = set_created-Holds codec merge laws body j c 1 (n - 1) db1 h1 in
    let (patched_run, readable) =
      patch-Readable codec merge laws body update expected replaced now merges db2 h2 1 (n - 1)
        filled j' c' l in
    let db3 = (Writes.patch codec merge now (codes "test/*") update db2).1 in
    ap (λ t. t.0)
      (batch_set_test-passes codec (in_memory codec merge) body update expected now n db db1 db2 db3
        (codes "test/*") (unfold Writes.clear in refl) run
        (get_numbered-run codec merge body 1 (n - 1) db2
          (Holds-Readable codec merge body 1 (n - 1) db2 h2 l))
        patched_run (get_numbered-run codec merge expected 1 (n - 1) db3 readable))
