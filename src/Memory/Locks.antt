-- ===== src/Memory/Locks.antt =====
-- The locks of memory.go: a key that `GetAndLock` has locked stays locked until `SetAndUnlock` or
-- `Unlock` of that key, and nobody else gets the lock meanwhile.
use ooo.Base.{
  Bool, true, false, List, none, some, Text, text_eq_iff, text_eq_refl, ◌≡◌, ◌≢◌, ◌∙◌,
  if◌then◌else◌, arith, ℤ, has, All,
}
use ooo.Key.Path.{star}
use ooo.Meta.{Codec}
use ooo.Memory.Table.{load, load-store}
use ooo.Memory.State.{Db, IsStarted, returned, blocked, set as set_event}
use ooo.Memory.Writes.{Merge, set, patch, clear}
use ooo.Memory.Effects.{set-locks, set_with_meta-locks, del-locks, set-returned}
use ooo.Memory.Patches.{patch-keeps, patch_entry-locks}
use ooo.Memory.Notify.{notify-locks}
use ooo.Memory.Reads.{get}
use ooo.Memory.Life.{get_and_lock, set_and_unlock, unlock, start, close}
use ooo.Memory.Run.{Request, step, run, run_induction}

module _ (codec : Codec) where
  pub get_and_lock-mem : (path : Text) (db : Db) → (get_and_lock codec path db).1.mem ≡ db.mem
  unfolding get_and_lock
  get_and_lock-mem path db = ground arith

  pub unlock-mem : (path : Text) (db : Db) → (unlock path db).1.mem ≡ db.mem
  unfolding unlock
  unlock-mem path db = ground arith

  pub set_and_unlock-mem :
      (now : ℤ) (path body : Text) (db : Db)
      → (set_and_unlock codec now path body db).1.mem ≡ (
          if has star path then db.mem else (elim (load path db.locks) [
            | none ↦ db.mem
            | some _ ↦ (set codec now path body db).1.mem
          ]))
  unfolding set_and_unlock
  set_and_unlock-mem now path body db = ground arith

  abbrev pub is_held : Text → Db → Bool
  is_held key db = elim (load key db.locks) [ none ↦ false | some held ↦ held ]

  -- A held lock makes `GetAndLock` of its key, one without a star, wait; a lock that nobody holds
  -- is taken, and the call returns what `Get` returns. Either way the lock is held then.
  pub get_and_lock_lem :
      (path : Text) (db : Db)
      → has star path ≡ false
      → ((get_and_lock codec path db).0
          ≡ (if is_held path db then blocked else returned (get codec path db.mem)))
        × (is_held path (get_and_lock codec path db).1 ≡ true)
  unfolding get_and_lock
  get_and_lock_lem path db h = ground (arith, load-store path path true db.locks, text_eq_refl path)

  -- In a started storage `SetAndUnlock` of a held lock, of a key without a star, returns what
  -- `Set` returns, and frees the lock.
  set_and_unlock_lem :
      (now : ℤ) (path body : Text) (db : Db)
      → has star path ≡ false
      → is_held path db ≡ true
      → IsStarted db
      → ((set_and_unlock codec now path body db).0 ≡ (set codec now path body db).0)
        × (is_held path (set_and_unlock codec now path body db).1 ≡ false)
  unfolding set_and_unlock
  set_and_unlock_lem now path body db h k s = ground (
    arith,
    set-returned codec now path body db s,
    set-locks codec now path body db,
    load-store path path false db.locks,
    load-store path path false (set codec now path body db).1.locks,
    text_eq_refl path,
  )

  -- The calls that cannot free the lock of a key.
  abbrev pub KeepsLock : Text → Request → Type 0
  KeepsLock key (Request.set_and_unlock now path body) = path ≢ key
  KeepsLock key (Request.unlock path) = path ≢ key
  KeepsLock key _ = Unit

  module _ (key : Text) where
    get_and_lock-is_held :
        (path : Text) (db : Db)
        → is_held key db ≡ true
        → is_held key (get_and_lock codec path db).1 ≡ true
    unfolding get_and_lock
    get_and_lock-is_held path db h = ground (arith, load-store path key true db.locks)

    set_and_unlock-is_held :
        (now : ℤ) (path body : Text) (db : Db)
        → path ≢ key
        → is_held key db ≡ true
        → is_held key (set_and_unlock codec now path body db).1 ≡ true
    unfolding set_and_unlock
    set_and_unlock-is_held now path body db n h = ground (
      arith,
      set-locks codec now path body db,
      text_eq_iff path key,
      load-store path key false (set codec now path body db).1.locks,
    )

    unlock-is_held :
        (path : Text) (db : Db)
        → path ≢ key
        → is_held key db ≡ true
        → is_held key (unlock path db).1 ≡ true
    unfolding unlock
    unlock-is_held path db n h =
        ground (arith, text_eq_iff path key, load-store path key false db.locks)

    module _ (merge : Merge) where
      patch-is_held :
          (now : ℤ) (path body : Text) (db : Db)
          → is_held key db ≡ true
          → is_held key (patch codec merge now path body db).1 ≡ true
      patch-is_held now path body =
          patch-keeps codec merge now body (λ d. is_held key d ≡ true)
            (λ k d h. rw (patch_entry-locks codec merge now k body d, is_held) h)
            (λ p d h. rw (notify-locks set_event p d, is_held) h) path

      step-is_held :
          (r : Request) (db : Db)
          → KeepsLock key r
          → is_held key db ≡ true
          → is_held key (step codec merge r db) ≡ true
      unfolding step
      step-is_held (Request.set now path body) db q h =
          rw (set-locks codec now path body db, is_held) h
      step-is_held (Request.patch now path body) db q h = patch-is_held now path body db h
      step-is_held (Request.set_with_meta path body c u) db q h =
          rw (set_with_meta-locks codec path body c u db, is_held) h
      step-is_held (Request.del path) db q h = rw (del-locks path db, is_held) h
      step-is_held Request.clear db q h = unfold clear in h
      step-is_held (Request.start l) db q h = unfold start in h
      step-is_held Request.close db q h = unfold close in ground arith
      step-is_held (Request.get_and_lock path) db q h = get_and_lock-is_held path db h
      step-is_held (Request.set_and_unlock now path body) db q h =
          set_and_unlock-is_held now path body db q h
      step-is_held (Request.unlock path) db q h = unlock-is_held path db q h

      -- After a `GetAndLock` of a key without a star, whatever else is called meanwhile, another
      -- `GetAndLock` of the key waits as long as nobody calls `SetAndUnlock` or `Unlock` of the
      -- key.
      pub lock_excludes :
          (rs : List Request) (db : Db)
          → has star key ≡ false
          → All (KeepsLock key) rs
          → (get_and_lock codec key (run codec merge rs (get_and_lock codec key db).1)).0 ≡ blocked
      lock_excludes rs db h q =
          let db' = (get_and_lock codec key db).1 in
          let held =
            run_induction codec merge (λ d. is_held key d ≡ true) (KeepsLock key) step-is_held rs
              db' q (get_and_lock_lem key db h).1 in
          (get_and_lock_lem key (run codec merge rs db') h).0 ∙ rw held
