-- ===== src/Server/Workers/Told.antt =====
-- What a write of a single key (memory.go) changes for the reads of other keys, and the event that
-- it leaves for the readers of the channel.
use ooo.Base.{
  Bool, true, false, not, ◌&&◌, List, [], ◌∷◌, ◌++◌, some, Text, text_eq_iff, ◌≡◌, ◌∙◌, ap, ◌⊎◌,
  inl, inr, arith, Bool-cases, Option-cases, ℤ, has, is_empty,
}
use ooo.Key.{is_valid, match, peer, contains}
use ooo.Key.Path.{star}
use ooo.Meta.{Codec}
use ooo.Memory.Table.{Table, load, store, delete, delete_if, load-delete}
use ooo.Memory.State.{Operation, Event, Db, notify, set as set_event, del as del_event}
use ooo.Memory.Writes
use ooo.Memory.Writes.{Merge, entry, patch_entry}
use ooo.Memory.Effects.{stores}
use ooo.Memory.Patches.{patched, patch_error, patched-patch_error, patch_entry-state, patch-state}
use ooo.Memory.Reads.{get, get_ordered, objects_if}
use ooo.Memory.Run.{Request, set, patch, set_with_meta, del, clear, step}
use ooo.Memory.Run
use ooo.Server.Coherence.{get-store, not_peer}
use ooo.Server.Workers.{is_told}

-- An active storage, with a channel and keys that are not broadcast.
pub record IsOpen (db : Db) (quiet : List Text) (events : List Event) : Type 0 where
  pub active : db.storage ≡ some true
  pub watcher : db.watcher ≡ some events
  pub unchanged : db.no_broadcast_keys ≡ quiet

-- The storage after a change of the map that is told.
abbrev pub after_change : Db → Table Text → List Event → Event → Db
after_change db mem events e = record db { mem = mem; watcher = some (events ++ e ∷ []) }

module _ (codec : Codec) where
  objects_if-delete :
      (p : Text → Bool) (key : Text) (mem : Table Text)
      → p key ≡ false
      → objects_if codec p (delete key mem) ≡ objects_if codec p mem
  unfolding objects_if delete delete_if
  objects_if-delete p key [] h = ground arith
  objects_if-delete p key ((k, v) ∷ mem) h =
      ground (arith, text_eq_iff key k, objects_if-delete p key mem h)

  get-delete :
      (j key : Text) (mem : Table Text)
      → peer j key ≡ false
      → get codec j (delete key mem) ≡ get codec j mem
  unfolding get get_ordered
  get-delete j key mem h =
      let (m, e) = not_peer codec j key h in
      ground (arith, load-delete key j mem, objects_if-delete (match j) key mem m)

  -- A change of the map that only the reads of the peers of an event's key may see.
  pub record IsTold (db : Db) (events : List Event) (db' : Db) : Type 0 where
    pub mem : Table Text
    pub event : Event
    pub named : is_empty event.key ≡ false
    pub state : db' ≡ after_change db mem events event
    pub same : (j : Text) → peer j event.key ≡ false → get codec j mem ≡ get codec j db.mem

  module _ (db : Db) (quiet : List Text) (events : List Event) (h : IsOpen db quiet events) where
    notify-after_change :
        (operation : Operation) (path : Text) (mem : Table Text)
        → contains quiet path ≡ false
        → (notify operation path (record db { mem = mem })).1
          ≡ after_change db mem events (record { key = path; operation = operation })
    unfolding notify
    notify-after_change operation path mem q = ground (arith, h.active, h.watcher, h.unchanged)

    set-IsTold :
        (now : ℤ) (path body : Text)
        → is_empty path ≡ false
        → contains quiet path ≡ false
        → ((Writes.set codec now path body db).1 ≡ db)
          ⊎ IsTold db events (Writes.set codec now path body db).1
    set-IsTold now path body n q = elim (Bool-cases (stores path body)) [
      | inr e ↦ inl (unfold Writes.set in ground arith)
      | inl e ↦ inr (record {
        mem = store path (entry codec db.mem path body now) db.mem;
        event = record { key = path; operation = set_event };
        named = n;
        state =
            unfold Writes.set in
            ground (
              arith,
              notify-after_change set_event path
                  (store path (entry codec db.mem path body now) db.mem) q,
            );
        same = λ j e'. get-store codec j path (entry codec db.mem path body now) db.mem e';
      })
    ]

    del-IsTold :
        (path : Text)
        → is_empty path ≡ false
        → has star path ≡ false
        → contains quiet path ≡ false
        → ((Writes.del path db).1 ≡ db) ⊎ IsTold db events (Writes.del path db).1
    del-IsTold path n e q = elim (Option-cases (load path db.mem)) [
      | inl l ↦ inl (unfold Writes.del in ground arith)
      | inr (v, l) ↦ inr (record {
        mem = delete path db.mem;
        event = record { key = path; operation = del_event };
        named = n;
        state =
            unfold Writes.del in
            ground (arith, notify-after_change del_event path (delete path db.mem) q);
        same = λ j e'. get-delete j path db.mem e';
      })
    ]

    patch-IsTold :
        (merge : Merge) (now : ℤ) (path body : Text)
        → is_empty path ≡ false
        → has star path ≡ false
        → contains quiet path ≡ false
        → ((Writes.patch codec merge now path body db).1 ≡ db)
          ⊎ IsTold db events (Writes.patch codec merge now path body db).1
    patch-IsTold merge now path body n e q =
        elim (Bool-cases (is_valid path && not (is_empty body))) [
          | inr v ↦ inl (patch-state codec merge now body path db ∙ rw v)
          | inl v ↦ elim (Option-cases (patched codec merge now path body db)) [
            | inl p ↦ elim (Option-cases (patch_error codec merge now path body db)) [
              | inl f ↦ absurd (unfold patched patch_error in ground arith)
              | inr (x, f) ↦ inl (patch-state codec merge now body path db ∙ rw (v, e, f))
            ]
            | inr (m, p) ↦ inr (record {
              mem = store path (entry codec db.mem path m now) db.mem;
              event = record { key = path; operation = set_event };
              named = n;
              state =
                  patch-state codec merge now body path db
                  ∙ (rw (v, e, patched-patch_error codec merge now path body db m p))
                  ∙ ap (λ t. (notify set_event path t).1)
                      (patch_entry-state codec merge now path body db ∙ rw p)
                  ∙ notify-after_change set_event path
                      (store path (entry codec db.mem path m now) db.mem) q;
              same = λ j e'. get-store codec j path (entry codec db.mem path m now) db.mem e';
            })
          ]
        ]

    -- A write that `is_told` names changes nothing, or is told.
    pub step-IsTold :
        (merge : Merge) (r : Request)
        → is_told quiet r ≡ true
        → (step codec merge r db ≡ db) ⊎ IsTold db events (step codec merge r db)
    unfolding step is_told
    step-IsTold merge (set now path body) t = set-IsTold now path body (ground arith) (ground arith)
    step-IsTold merge (patch now path body) t =
        patch-IsTold merge now path body (ground arith) (ground arith) (ground arith)
    step-IsTold merge (del path) t = del-IsTold path (ground arith) (ground arith) (ground arith)
    step-IsTold merge (set_with_meta _ _ _ _) t = absurd (ground arith)
    step-IsTold merge clear t = absurd (ground arith)
    step-IsTold merge (Run.start _) t = absurd (ground arith)
    step-IsTold merge Run.close t = absurd (ground arith)
    step-IsTold merge (Run.get_and_lock _) t = absurd (ground arith)
    step-IsTold merge (Run.set_and_unlock _ _ _) t = absurd (ground arith)
    step-IsTold merge (Run.unlock _) t = absurd (ground arith)
