-- ===== src/Database/Conformance/Loops.antt =====
-- The loops over numbered keys of storageTest.go, on the in-memory storage (memory.go).
use ooo.Base.{
  ℕ, zero, suc, ◌+◌, ◌≤◌, ◌<◌, true, ◌&&◌, none, some, Text, text_eq, text_eq_refl, codes, itoa,
  ◌≡◌, ◌≢◌, refl, ◌∙◌, ap, sym, subst, arith, pos, if◌then◌else◌, ◌==◌, ltb, length, take,
  Bool-cases, Option-cases, inl, inr,
}
use ooo.Key.{last_index}
use ooo.Meta.{Object, Codec, IsCodec}
use ooo.Memory.Table.{IsTable, load, store, load-store, store-IsTable}
use ooo.Memory.State.{returned, Db, IsStarted, notify, set as set_event, ◌>>=◌, continue}
use ooo.Memory.Notify.{notify-returned}
use ooo.Memory.Writes
use ooo.Memory.Writes.{Merge, entry}
use ooo.Memory.Effects.{meta_entry, set_with_meta-mem}
use ooo.Database.{Database}
use ooo.Database.InMemory.{in_memory}
use ooo.Database.Conformance.{require_object}
use ooo.Database.Conformance.Numbered.{numbered, set_created, get_numbered}
use ooo.Database.Conformance.Numbers.{numbered-has-star, numbered-is_valid, numbered-last_index}
use ooo.Database.Conformance.Passes.{notify-IsStarted, get-run}

module _ {S : Type 0} (codec : Codec) (data_base : Database S) where
  -- Rounds of the loops, if the storage answers as they ask.
  set_created-passes :
      (body : Text) (i count : ℕ) (s s' : S)
      → data_base.set_with_meta (numbered i) body (pos i) (pos 0) s ≡ (returned (itoa i, none), s')
      → set_created codec data_base body i (suc count) s
        ≡ set_created codec data_base body (suc i) count s'
  unfolding set_created
  set_created-passes body i count s s' h = rw (h, continue, ◌>>=◌, text_eq_refl (itoa i)) refl

  get_numbered-passes :
      (body : Text) (i count : ℕ) (s : S) (v : Text) (o : Object)
      → data_base.get (numbered i) s ≡ (returned (v, none), s)
      → codec.decode_object v ≡ some o
      → o.body ≡ body
      → get_numbered codec data_base body i (suc count) s
        ≡ get_numbered codec data_base body (suc i) count s
  unfolding get_numbered
  get_numbered-passes body i count s v o h d b =
      rw (h, continue, ◌>>=◌, require_object, d, b, text_eq_refl body) refl

module _ (codec : Codec) (merge : Merge) where
  -- All objects of the storage have a document.
  pub record Holds (document : Text) (db : Db) : Type 0 where
    pub started : IsStarted db
    pub table : IsTable db.mem
    pub all :
        (k v : Text)
        → load k db.mem ≡ some v
        → (o : Object) × (codec.decode_object v ≡ some o) × (o.body ≡ document)

  abbrev pub Loaded : ℕ → ℕ → Db → Type 0
  Loaded i count db = (j : ℕ) → i ≤ j → j < i + count → load (numbered j) db.mem ≢ none

  -- The numbered keys have objects with a document.
  abbrev pub Readable : Text → ℕ → ℕ → Db → Type 0
  Readable document i count db =
      (j : ℕ)
      → i ≤ j
      → j < i + count
      → (v : Text) × (o : Object) × (load (numbered j) db.mem ≡ some v)
        × (codec.decode_object v ≡ some o)
        × (o.body ≡ document)

  pub Holds-Readable :
      (document : Text) (i count : ℕ) (db : Db)
      → Holds document db
      → Loaded i count db
      → Readable document i count db
  Holds-Readable document i count db h l j a b = elim (Option-cases (load (numbered j) db.mem)) [
    | inl e ↦ absurd (l j a b e)
    | inr (v, e) ↦ let (o, d, same) = h.all (numbered j) v e in (v, o, e, d, same)
  ]

  pub get_numbered-run :
      (document : Text) (i count : ℕ) (db : Db)
      → Readable document i count db
      → get_numbered codec (in_memory codec merge) document i count db ≡ (returned tt, db)
  get_numbered-run document i zero db r = unfold get_numbered in refl
  get_numbered-run document i (suc count) db r =
      let (v, o, e, d, b) = r i (omega arith) (omega arith) in
      get_numbered-passes codec (in_memory codec merge) document i count db v o
        (ap (λ t. (returned t, db)) (get-run codec (numbered i) db (numbered-has-star i) v e)) d b
      ∙ get_numbered-run document (suc i) count db (λ j a b. r j (omega arith) (omega arith))

  module _ (laws : IsCodec codec) (body : Text) (json : codec.is_json body ≡ true)
      (compact : codec.compact body ≡ body) where
    module _ (i : ℕ) (db : Db) (h : Holds body db) where
      abbrev value : Text
      value = meta_entry codec (numbered i) body (pos i) (pos 0) db

      abbrev created : Db
      created = (Writes.set_with_meta codec (numbered i) body (pos i) (pos 0) db).1

      created-mem : created.mem ≡ store (numbered i) value db.mem
      created-mem =
          set_with_meta-mem codec (numbered i) body (pos i) (pos 0) db
          ∙ rw (numbered-is_valid i) refl

      abbrev stored : Db
      stored = record db { mem = store (numbered i) value db.mem }

      stored-IsStarted : IsStarted stored
      stored-IsStarted = record { storage = h.started.storage; watcher = h.started.watcher }

      created-run :
          Writes.set_with_meta codec (numbered i) body (pos i) (pos 0) db
          ≡ (returned (itoa i, none), created)
      created-run =
          let answer : (Writes.set_with_meta codec (numbered i) body (pos i) (pos 0) db).0
              ≡ returned (itoa i, none) =
            unfold Writes.set_with_meta in
            ground (
              arith,
              numbered-is_valid i,
              numbered-last_index i,
              notify-returned set_event (numbered i) stored stored-IsStarted,
            ) in
          ap (λ t. (t, created)) answer

      created-load :
          (k : Text)
          → load k created.mem ≡ (if text_eq (numbered i) k then some value else load k db.mem)
      created-load k = ap (load k) created-mem ∙ load-store (numbered i) k value db.mem

      created-IsStarted : IsStarted created
      created-IsStarted =
          elim (Bool-cases
            (ltb 8 (length (numbered i)) && text_eq (take 7 (numbered i)) (codes "history"))) [
              | inl t ↦
                  let e : created ≡ stored =
                    unfold Writes.set_with_meta in ground (arith, numbered-is_valid i) in
                  subst IsStarted (sym e) stored-IsStarted
              | inr t ↦
                  let e : created ≡ (notify set_event (numbered i) stored).1 =
                    unfold Writes.set_with_meta in ground (arith, numbered-is_valid i) in
                  subst IsStarted (sym e)
                    (notify-IsStarted set_event (numbered i) stored stored-IsStarted)
            ]

      created-Holds : Holds body created
      created-Holds = record {
        started = created-IsStarted;
        table = subst IsTable (sym created-mem) (store-IsTable (numbered i) value db.mem h.table);
        all = λ k v e. elim (Bool-cases (text_eq (numbered i) k)) [
          | inl s ↦
              let new : value ≡ v = ground (arith, created-load k) in
              (
                record {
                  created = pos i;
                  updated = pos 0;
                  index = last_index (numbered i);
                  path = numbered i;
                  body = codec.compact body;
                },
                ap codec.decode_object (sym new) ∙ laws.round_trip _ json,
                compact,
              )
          | inr s ↦ h.all k v (ground (arith, created-load k))
        ];
      }

    pub set_created-Holds :
        (i count : ℕ) (db : Db)
        → Holds body db
        → (db' : Db) × (set_created codec (in_memory codec merge) body i count db
            ≡ (returned tt, db'))
          × Holds body db'
          × Loaded i count db'
          × ((k : Text) → load k db.mem ≢ none → load k db'.mem ≢ none)
    set_created-Holds i zero db h =
        (db, unfold set_created in refl, h, λ j a b. absurd (omega arith), λ k n. n)
    set_created-Holds i (suc count) db h =
        let (db', run, h', l, keep) =
          set_created-Holds (suc i) count (created i db h) (created-Holds i db h) in
        (
          db',
          set_created-passes codec (in_memory codec merge) body i count db (created i db h)
                (created-run i db h)
              ∙ run,
          h',
          λ j a b. elim (Bool-cases (i == j)) [
            | inl e ↦
                let same : i ≡ j = ground arith in
                keep (numbered j) (λ n. absurd (
                  ground (
                    arith,
                    created-load i db h (numbered j),
                    ap numbered same,
                    text_eq_refl (numbered j),
                  )))
            | inr e ↦ l j (ground arith) (omega arith)
          ],
          λ k n. keep k (λ e. n (ground (arith, created-load i db h k))),
        )
