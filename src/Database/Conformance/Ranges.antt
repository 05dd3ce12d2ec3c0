-- ===== src/Database/Conformance/Ranges.antt =====
-- The in-memory storage (memory.go) passes `StorageKeysRangeTest`: a range that ends with the time
-- of the first key holds this key alone.
use ooo.Base.{
  ℕ, ◌≤◌, true, false, List, [], ◌∷◌, ◌++◌, none, Text, text_eq, text_eq_refl, codes, is_empty, All,
  ◌≡◌, ◌≢◌, refl, ◌∙◌, ap, sym, subst, arith, map, ℤ, pos, if◌then◌else◌, Bool-cases, inl, inr,
}
use ooo.Key.{build, decode}
use ooo.Key.Hex.{max_int64}
use ooo.Key.Stamp.{stamp, decode-format_int}
use ooo.Meta.{Codec}
use ooo.Memory.Table.{load, store, keys_if, load-store}
use ooo.Memory.State.{returned, Db, IsStarted, ◌>>=◌, continue}
use ooo.Memory.Writes
use ooo.Memory.Writes.{Merge, entry}
use ooo.Memory.Effects.{set-mem}
use ooo.Memory.Reads.{keys_range}
use ooo.Database.{Database}
use ooo.Database.InMemory.{in_memory}
use ooo.Database.Conformance.{build_keys, keys_range_test}
use ooo.Database.Conformance.Passes.{set-run, set-IsStarted}
use ooo.Database.Conformance.Times.{
  built_key, built_key-stamp, built_key-last_index, stamp-not_empty, built_key-stores, in_range,
  in_range-first, in_range-later, keys_if-store, keys_range-first,
}

module _ {S : Type 0} (data_base : Database S) (body : Text) where
  -- A round of the loop, and the test, if the storage answers as they ask.
  build_keys-passes :
      (first : Text) (built now : ℤ) (readings : List (ℤ × ℤ)) (s s' : S) (i : Text)
      → data_base.set now (build built (codes "test/*")) body s ≡ (returned (i, none), s')
      → text_eq (build built (codes "test/*")) (codes "test/" ++ i) ≡ true
      → build_keys data_base body first ((built, now) ∷ readings) s
        ≡ build_keys data_base body (if is_empty first then i else first) readings s'
  unfolding build_keys
  build_keys-passes first built now readings s s' i h e = rw (h, continue, ◌>>=◌, e) refl

  keys_range_test-passes :
      (readings : List (ℤ × ℤ)) (s s1 s2 : S) (first key : Text)
      → data_base.clear s ≡ (returned tt, s1)
      → build_keys data_base body [] readings s1 ≡ (returned first, s2)
      → data_base.keys_range (codes "test/*") (pos 0) (decode first) s2
        ≡ (returned (key ∷ [], none), s2)
      → text_eq (codes "test/" ++ first) key ≡ true
      → keys_range_test data_base body readings s ≡ (returned tt, s2)
  unfolding keys_range_test
  keys_range_test-passes readings s s1 s2 first key h1 h2 h3 e =
      rw (h1, continue, ◌>>=◌, h2, h3, e) refl

-- The readings of `Build`, which do not go back before the first one and fit an `int64`.
abbrev pub IsLater : ℕ → ℕ × ℤ → Type 0
IsLater first r = (first ≤ r.0) × (r.0 ≤ max_int64)

abbrev readings_of : List (ℕ × ℤ) → List (ℤ × ℤ)
readings_of = map (λ r. (pos r.0, r.1))

module _ (codec : Codec) (merge : Merge) (body : Text) (filled : is_empty body ≡ false) where
  -- The first key is there, alone in its range.
  record IsFirst (first : ℕ) (db : Db) : Type 0 where
    started : IsStarted db
    there : load (built_key first) db.mem ≢ none
    alone : keys_if (in_range first) db.mem ≡ built_key first ∷ []

  module _ (n : ℕ) (now : ℤ) (db : Db) where
    abbrev after : Db
    after = (Writes.set codec now (built_key n) body db).1

    after-mem : after.mem ≡ store (built_key n) (entry codec db.mem (built_key n) body now) db.mem
    after-mem = set-mem codec now (built_key n) body db ∙ rw (built_key-stores n body filled)

    -- A round of the loop.
    build_keys-next :
        (first : Text) (readings : List (ℤ × ℤ))
        → IsStarted db
        → build_keys (in_memory codec merge) body first ((pos n, now) ∷ readings) db
          ≡ build_keys
              (in_memory codec merge)
              body
              (if is_empty first then stamp n else first)
              readings
              after
    build_keys-next first readings h =
        build_keys-passes (in_memory codec merge) body first (pos n) now readings db after (stamp n)
          (set-run codec now (built_key n) body db (built_key-stores n body filled) h
            ∙ ap (λ i. (returned (i, none), after)) (built_key-last_index n))
          (ap (λ k. text_eq k (codes "test/" ++ stamp n)) (built_key-stamp n)
            ∙ text_eq_refl (codes "test/" ++ stamp n))

    later-IsFirst : (first : ℕ) → n ≤ max_int64 → first ≤ n → IsFirst first db → IsFirst first after
    later-IsFirst first fits le h = record {
      started =
          set-IsStarted codec now (built_key n) body db (built_key-stores n body filled) h.started;
      there = λ e. h.there (
          ground (
            arith,
            e,
            after-mem,
            load-store (built_key n) (built_key first) (entry codec db.mem (built_key n) body now)
                db.mem,
          ));
      alone =
          ap (keys_if (in_range first)) after-mem
          ∙ elim (Bool-cases (in_range first (built_key n))) [
            | inr e ↦
                (keys_if-store (in_range first) (built_key n)
                    (entry codec db.mem (built_key n) body now) db.mem).1
                  e
            | inl e ↦
                (keys_if-store (in_range first) (built_key n)
                    (entry codec db.mem (built_key n) body now) db.mem).0
                  (subst (λ m. load (built_key m) db.mem ≢ none)
                    (sym (in_range-later first n fits le e)) h.there)
          ]
          ∙ h.alone;
    }

  set-IsFirst :
      (n : ℕ) (now : ℤ) (db : Db)
      → n ≤ max_int64
      → IsStarted db
      → db.mem ≡ []
      → IsFirst n (after n now db)
  set-IsFirst n now db fits h empty = record {
    started = set-IsStarted codec now (built_key n) body db (built_key-stores n body filled) h;
    there = λ e. ground (
      arith,
      e,
      after-mem n now db,
      text_eq_refl (built_key n),
      load-store (built_key n) (built_key n) (entry codec db.mem (built_key n) body now) db.mem,
    );
    alone =
        ap (keys_if (in_range n)) (after-mem n now db)
        ∙ unfold keys_if store in rw (empty, in_range-first n fits) refl;
  }

  build_keys-IsFirst :
      (first : ℕ) (readings : List (ℕ × ℤ)) (db : Db)
      → All (IsLater first) readings
      → IsFirst first db
      → (db' : Db) × (build_keys
            (in_memory codec merge)
            body
            (stamp first)
            (readings_of readings)
            db
          ≡ (returned (stamp first), db'))
        × IsFirst first db'
  build_keys-IsFirst first [] db l h = (db, unfold build_keys in refl, h)
  build_keys-IsFirst first ((n, now) ∷ readings) db l h =
      let (db', e, h') =
        build_keys-IsFirst first readings (after n now db) l.1
          (later-IsFirst n now db first l.0.1 l.0.0 h) in
      (
        db',
        build_keys-next n now db (stamp first) (readings_of readings) h.started
            ∙ rw (stamp-not_empty first) e,
        h',
      )

-- `StorageKeysRangeTest` passes on a started in-memory storage, whatever it holds, for any
-- document that is not empty and any readings of the clock, at least one, in which no key is built
-- before the first one, the times of the keys are not negative, and an `int64` holds them.
pub keys_range_test_lem :
    (codec : Codec) (merge : Merge) (body : Text) (first : ℕ) (now : ℤ) (readings : List (ℕ × ℤ))
    (db : Db)
    → is_empty body ≡ false
    → first ≤ max_int64
    → All (IsLater first) readings
    → IsStarted db
    → (keys_range_test
        (in_memory codec merge)
        body
        (map (λ r. (pos r.0, r.1)) ((first, now) ∷ readings))
        db).0
      ≡ returned tt
keys_range_test_lem codec merge body first now readings db filled fits later h =
    let db1 : Db = record db { mem = [] } in
    let h1 : IsStarted db1 = record { storage = h.storage; watcher = h.watcher } in
    let (db', e, h') =
      build_keys-IsFirst codec merge body filled first readings
        (after codec merge body filled first now db1) later
        (set-IsFirst codec merge body filled first now db1 fits h1 refl) in
    let run = build_keys-next codec merge body filled first now db1 [] (readings_of readings) h1 in
    let time = decode-format_int first fits in
    let listed : keys_range (codes "test/*") (pos 0) (decode (stamp first)) db'.mem
        ≡ (built_key first ∷ [], none) =
      ap (λ t. keys_range (codes "test/*") (pos 0) t db'.mem) time
      ∙ keys_range-first first db'.mem
      ∙ ap (λ l. (l, none)) (IsFirst.alone h') in
    ap (λ t. t.0)
      (keys_range_test-passes (in_memory codec merge) body (readings_of ((first, now) ∷ readings))
        db db1 db' (stamp first) (built_key first) (unfold Writes.clear in refl) (run ∙ e)
        (ap (λ r. (returned r, db')) listed)
        (ap (text_eq (codes "test/" ++ stamp first)) (built_key-stamp first)
          ∙ text_eq_refl (codes "test/" ++ stamp first)))
