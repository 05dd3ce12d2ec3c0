-- ===== src/Memory/Abstract.antt =====
-- An abstract storage, a function from keys to objects, and memory.go as an implementation of it:
-- its map holds bytes, in an order that the program cannot rely on, and the view forgets both.
use mathlib.Core.Path.{fun_ext}
use ooo.Base.{
  ℕ, ◌==◌, true, false, not, ◌&&◌, List, [], ◌∷◌, Option, none, some, Text, text_eq, is_empty, has,
  All, ◌≡◌, refl, ◌∙◌, sym, ap, inl, inr, if◌then◌else◌, arith, Bool-cases, Option-cases, ℤ, pos,
}
use ooo.Key.{is_valid, last_index, match}
use ooo.Key.Path.{star}
use ooo.Meta.{Object, Codec, IsCodec}
use ooo.Memory.Table.{Table, load, store, load-store}
use ooo.Memory.State.{Db, set as set_event}
use ooo.Memory.Notify.{notify-mem}
use ooo.Memory.Writes.{Merge, peek, entry, set, patch_entry, patch, clear}
use ooo.Memory.Effects.{stores, set-mem, set_with_meta-mem}
use ooo.Memory.Patches.{
  patched, patch_error, patched_inv, patch_error-patched, patch_entry-state, patch-state,
}
use ooo.Memory.Contents.{load-del, decode-entry}
use ooo.Memory.Life.{start}
use ooo.Memory.Locks.{get_and_lock-mem, unlock-mem}
use ooo.Memory.Invariant.{close-mem}
use ooo.Memory.Reads.{get}
use ooo.Memory.Run.{Request, step, run}

-- What the storage holds, by key.
abbrev pub View : Type 0
View = Text → Option Object

abbrev put : Text → Object → View → View
put key o view j = if text_eq key j then some o else view j

abbrev times_over : Option Object → ℤ → ℤ × ℤ
times_over none now = (now, pos 0)
times_over (some old) now = (old.created, now)

module _ (codec : Codec) where
  -- The object that a write makes of the one before it: it keeps the creation time.
  abbrev over : Option Object → ℤ → Text → Text → Object
  over old now path body = record {
    created = (times_over old now).0;
    updated = (times_over old now).1;
    index = last_index path;
    path = path;
    body = codec.compact body;
  }

  -- `Set`, abstractly.
  unfoldable pub set_view : ℤ → Text → Text → View → View
  set_view now path body view =
      if stores path body then put path (over (view path) now path body) view else view

  module _ (merge : Merge) where
    -- `Patch` of a key, abstractly.
    unfoldable pub patch_view : ℤ → Text → Text → View → View
    patch_view now path body view =
        if is_valid path && not (is_empty body)
        then elim (view path) [
          | none ↦ view
          | some o ↦ elim (merge o.body body) [
            | none ↦ view
            | some (merged, replaced) ↦
                if replaced == 0 then view else put path (over (some o) now path merged) view
          ]
        ]
        else view

    -- Each call, abstractly; those that change no object are the identity.
    unfoldable pub step_view : Request → View → View
    unfolding set_view patch_view
    step_view (Request.set now path body) view = set_view now path body view
    step_view (Request.patch now path body) view = patch_view now path body view
    step_view (Request.set_with_meta path body created updated) view =
        if is_valid path
        then put path
            (record {
              created = created;
              updated = updated;
              index = last_index path;
              path = path;
              body = codec.compact body;
            })
            view
        else view
    step_view (Request.del path) view = λ j. if match path j then none else view j
    step_view Request.clear view = λ j. none
    step_view _ view = view

    unfoldable pub run_view : List Request → View → View
    unfolding step_view
    run_view [] view = view
    run_view (r ∷ rs) view = run_view rs (step_view r view)

    -- The calls that the abstract storage has: patches of a single key, and no writes under a lock.
    -- The bodies are JSON.
    abbrev pub IsPlain : Request → Type 0
    IsPlain (Request.set now path body) = codec.is_json body ≡ true
    IsPlain (Request.patch now path body) = has star path ≡ false
    IsPlain (Request.set_with_meta path body created updated) = codec.is_json body ≡ true
    IsPlain (Request.set_and_unlock now path body) = ⊥
    IsPlain _ = Unit

  -- The object that a map holds under a key.
  unfoldable pub view_of : Table Text → View
  view_of mem key = elim (load key mem) [ none ↦ none | some v ↦ codec.decode_object v ]

  -- The object that `Get` of a key returns, none where it fails.
  abbrev pub fetched : Table Text → View
  fetched mem key = elim (get codec key mem).1 [
    | none ↦ codec.decode_object (get codec key mem).0
    | some _ ↦ none
  ]

  fetched-view_of :
      (mem : Table Text) (key : Text) → has star key ≡ false → fetched mem key ≡ view_of mem key
  unfolding view_of get
  fetched-view_of mem key h = ground arith

  view_of-store :
      (path value : Text) (mem : Table Text) (o : Object)
      → codec.decode_object value ≡ some o
      → view_of (store path value mem) ≡ put path o (view_of mem)
  unfolding view_of
  view_of-store path value mem o e = fun_ext (λ j. ground (arith, load-store path j value mem))

  module _ (laws : IsCodec codec) where
    peek-times_over :
        (now : ℤ) (path : Text) (mem : Table Text)
        → peek codec mem path now ≡ times_over (view_of mem path) now
    unfolding view_of peek
    peek-times_over now path mem = ground arith

    view_of-entry :
        (now : ℤ) (path body : Text) (mem : Table Text)
        → codec.is_json body ≡ true
        → view_of (store path (entry codec mem path body now) mem)
          ≡ put path (over (view_of mem path) now path body) (view_of mem)
    view_of-entry now path body mem j =
        view_of-store path (entry codec mem path body now) mem
          (over (view_of mem path) now path body)
          (decode-entry codec laws mem path body now j
            ∙ ap
                (λ (t : ℤ × ℤ). some (record {
                  created = t.0;
                  updated = t.1;
                  index = last_index path;
                  path = path;
                  body = codec.compact body;
                }))
                (peek-times_over now path mem))

    view_of-set :
        (now : ℤ) (path body : Text) (db : Db)
        → codec.is_json body ≡ true
        → view_of (set codec now path body db).1.mem ≡ set_view now path body (view_of db.mem)
    unfolding set_view
    view_of-set now path body db j =
        ap view_of (set-mem codec now path body db) ∙ elim (Bool-cases (stores path body)) [
          | inl e ↦ rw e (view_of-entry now path body db.mem j)
          | inr e ↦ rw e
        ]

    module _ (merge : Merge)
        (merge_json : (a b m : Text) (n : ℕ)
          → merge a b ≡ some (m, n)
          → codec.is_json m ≡ true) where
      patched-view :
          (now : ℤ) (path body : Text) (db : Db)
          → (is_valid path && not (is_empty body)) ≡ true
          → patch_view merge now path body (view_of db.mem)
            ≡ elim (patched codec merge now path body db) [
              | none ↦ view_of db.mem
              | some m ↦ put path (over (view_of db.mem path) now path m) (view_of db.mem)
            ]
      unfolding patch_view patched view_of
      patched-view now path body db v = ground arith

      patch_entry-view :
          (now : ℤ) (path body : Text) (db : Db)
          → (is_valid path && not (is_empty body)) ≡ true
          → view_of (patch_entry codec merge now path body db).1.mem
            ≡ patch_view merge now path body (view_of db.mem)
      patch_entry-view now path body db v =
          ap (λ t. view_of t.mem) (patch_entry-state codec merge now path body db)
          ∙ elim (Option-cases (patched codec merge now path body db)) [
            | inl e ↦ rw e (sym (patched-view now path body db v ∙ rw e))
            | inr (m, e) ↦
                let (raw, o, n, _, _, g, _) = patched_inv codec merge now path body db m e in
                rw e (
                  view_of-entry now path m db.mem (merge_json o.body body m n g)
                  ∙ sym (patched-view now path body db v ∙ rw e))
          ]

      view_of-patch :
          (now : ℤ) (path body : Text) (db : Db)
          → has star path ≡ false
          → view_of (patch codec merge now path body db).1.mem
            ≡ patch_view merge now path body (view_of db.mem)
      view_of-patch now path body db h =
          ap (λ t. view_of t.mem) (patch-state codec merge now body path db)
          ∙ elim (Bool-cases (is_valid path && not (is_empty body))) [
            | inr v ↦ rw v (unfold patch_view in rw v)
            | inl v ↦
                rw (v, h)
                  (elim (Option-cases (patch_error codec merge now path body db)) [
                    | inl e ↦ rw e (
                        ap view_of
                          (notify-mem set_event path (patch_entry codec merge now path body db).1)
                        ∙ patch_entry-view now path body db v)
                    | inr (x, e) ↦ rw e (
                        sym (
                          patched-view now path body db v
                          ∙ rw (patch_error-patched codec merge now path body db x e)))
                  ])
          ]

      view_of-step :
          (r : Request) (db : Db)
          → IsPlain merge r
          → view_of (step codec merge r db).mem ≡ step_view merge r (view_of db.mem)
      unfolding step step_view
      view_of-step (Request.set now path body) db j = view_of-set now path body db j
      view_of-step (Request.patch now path body) db h = view_of-patch now path body db h
      view_of-step (Request.set_with_meta path body c u) db j =
          ap view_of (set_with_meta-mem codec path body c u db)
          ∙ elim (Bool-cases (is_valid path)) [
            | inl e ↦ rw e (view_of-store path _ db.mem _ (laws.round_trip _ j))
            | inr e ↦ rw e
          ]
      view_of-step (Request.del path) db j =
          fun_ext (λ k. unfold view_of in ground (arith, load-del path k db))
      view_of-step Request.clear db j = unfold clear view_of load in refl
      view_of-step (Request.start l) db j = unfold start in refl
      view_of-step Request.close db j = ap view_of (close-mem db)
      view_of-step (Request.get_and_lock path) db j = ap view_of (get_and_lock-mem codec path db)
      view_of-step (Request.set_and_unlock now path body) db j = absurd j
      view_of-step (Request.unlock path) db j = ap view_of (unlock-mem codec path db)

      run-view_of :
          (rs : List Request) (db : Db)
          → All (IsPlain merge) rs
          → view_of (run codec merge rs db).mem ≡ run_view merge rs (view_of db.mem)
      unfolding run run_view
      run-view_of [] db h = refl
      run-view_of (r ∷ rs) db h =
          run-view_of rs (step codec merge r db) h.1
          ∙ ap (run_view merge rs) (view_of-step r db h.0)

      -- Whatever is called on a storage, in whatever order, but patches of patterns and writes
      -- under a lock, with JSON bodies and a merge library that returns JSON: the objects that the
      -- map holds under all keys are those that the calls make of a function from keys to objects,
      -- and `Get` of a key without a star returns what this function has for it then.
      pub run-view :
          (rs : List Request) (db : Db) (key : Text)
          → All (IsPlain merge) rs
          → has star key ≡ false
          → (view_of (run codec merge rs db).mem ≡ run_view merge rs (view_of db.mem))
            × (fetched (run codec merge rs db).mem key ≡ run_view merge rs (view_of db.mem) key)
      run-view rs db key h s =
          let e = run-view_of rs db h in
          (e, fetched-view_of (run codec merge rs db).mem key s ∙ ap (λ v. v key) e)
