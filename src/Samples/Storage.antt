-- ===== src/Samples/Storage.antt =====
-- The theorems on memory.go at concrete storages and calls.
use ooo.Base.{
  true, false, List, [], ◌∷◌, none, some, Text, codes, text_eq, text_eq_iff, ◌≡◌, refl, ◌≢◌, ◌↔◌,
  arith, ℤ, pos, ◌≤ℤ◌, Among,
}
use ooo.Key.{is_word, ends_in_word, glob_regex, is_valid, match, last_index}
use ooo.Key.Path.{path_match}
use ooo.Memory.Table.{Table, load}
use ooo.Memory.State.{Db, returned, blocked, IsStarted}
use ooo.Memory.Writes
use ooo.Memory.Writes.{entry}
use ooo.Memory.Reads.{get, keys_range, key_time}
use ooo.Memory.Life.{new_storage, get_and_lock}
use ooo.Memory.Run.{Request, run}
use ooo.Memory.Entries.{IsWell}
use ooo.Memory.Abstract.{view_of, fetched, run_view, run-view, step_view, set_view, patch_view}
use ooo.Memory.Invariant.{run-IsWell}
use ooo.Memory.Locks.{lock_excludes}
use ooo.Memory.Contents.{set-get, written, run-created, created_in}
use ooo.Memory.Lists.{keys_range_lem}
use ooo.Samples.{toy_codec, toy_codec-IsCodec, toy_merge, toy_merge-json}

-- An object's bytes under its key.
abbrev pub value : Text → Text → ℤ → Text
value key index created =
    toy_codec.encode_object
      (record { created = created; updated = pos 0; index = index; path = key; body = codes "1" })

abbrev pub two_entries : Table Text
two_entries =
    (codes "game/16", value (codes "game/16") (codes "16") (pos 22))
    ∷ (codes "game/15", value (codes "game/15") (codes "15") (pos 21))
    ∷ []

abbrev pub started : Db
started = record {
  mem = two_entries;
  locks = [];
  no_broadcast_keys = codes "log/*" ∷ [];
  watcher = some [];
  storage = some true;
}

pub started-IsStarted : IsStarted started
started-IsStarted = record { storage = λ e. ground arith; watcher = λ s e. ground arith }

abbrev calls : List Request
calls =
    Request.start []
    ∷ Request.set (pos 5) (codes "game/1") (codes "{}")
    ∷ Request.patch (pos 6) (codes "game/*") (codes "{}")
    ∷ Request.get_and_lock (codes "game/1")
    ∷ Request.set_and_unlock (pos 7) (codes "game/1") (codes "2")
    ∷ Request.set_with_meta (codes "b/1") (codes "3") (pos 1) (pos 2)
    ∷ Request.unlock (codes "b/1")
    ∷ Request.del (codes "b/*")
    ∷ Request.close
    ∷ Request.clear
    ∷ []

run-IsWell_example : IsWell toy_codec (run toy_codec toy_merge calls new_storage).mem
run-IsWell_example =
    run-IsWell toy_codec toy_merge toy_codec-IsCodec toy_merge-json calls
      (tt, (refl, (tt, (tt, (refl, (refl, (tt, (tt, (tt, (tt, tt))))))))))

abbrev plain_calls : List Request
plain_calls =
    Request.start []
    ∷ Request.set (pos 5) (codes "game/1") (codes "{}")
    ∷ Request.set_with_meta (codes "b/1") (codes "3") (pos 1) (pos 2)
    ∷ Request.patch (pos 6) (codes "game/1") (codes "[1]")
    ∷ Request.del (codes "b/*")
    ∷ []

run-view_example :
    (view_of toy_codec (run toy_codec toy_merge plain_calls new_storage).mem
      ≡ run_view toy_codec toy_merge plain_calls (view_of toy_codec new_storage.mem))
    × (fetched toy_codec (run toy_codec toy_merge plain_calls new_storage).mem (codes "game/1")
        ≡ run_view toy_codec toy_merge plain_calls
            (view_of toy_codec new_storage.mem)
            (codes "game/1"))
run-view_example =
    run-view toy_codec toy_codec-IsCodec toy_merge toy_merge-json plain_calls new_storage
      (codes "game/1") (tt, (refl, (refl, (refl, (tt, tt))))) refl

set-get_example :
    ((Writes.set toy_codec (pos 30) (codes "game/15") (codes "{}") started).0
      ≡ returned (last_index (codes "game/15"), none))
    × (toy_codec.decode_object
          (get toy_codec
            (codes "game/15")
            (Writes.set toy_codec (pos 30) (codes "game/15") (codes "{}") started).1.mem).0
        ≡ some (
            written toy_codec toy_codec-IsCodec two_entries
              (codes "game/15")
              (codes "{}")
              (pos 30)))
    × (load
          (codes "game/16")
          (Writes.set toy_codec (pos 30) (codes "game/15") (codes "{}") started).1.mem
        ≡ load (codes "game/16") two_entries)
set-get_example =
    set-get toy_codec toy_codec-IsCodec (pos 30) (codes "game/15") (codes "{}") (codes "game/16")
      started (unfold is_valid glob_regex is_word ends_in_word in refl) refl started-IsStarted

-- Calls that keep the creation time of `game/15`.
abbrev keeping : List Request
keeping =
    Request.set (pos 30) (codes "game/15") (codes "2")
    ∷ Request.patch (pos 31) (codes "*/*") (codes "3")
    ∷ Request.del (codes "game/16")
    ∷ Request.set_with_meta (codes "b/1") (codes "3") (pos 1) (pos 2)
    ∷ Request.get_and_lock (codes "game/15")
    ∷ Request.set_and_unlock (pos 32) (codes "game/15") (codes "4")
    ∷ Request.close
    ∷ []

run-created_example :
    created_in toy_codec toy_codec-IsCodec
      (codes "game/15")
      (run toy_codec toy_merge keeping started).mem
    ≡ some (pos 21)
run-created_example =
    run-created toy_codec toy_codec-IsCodec toy_merge toy_merge-json (codes "game/15") (pos 21)
      keeping started (refl, (tt, (unfold match in refl, (λ e. cc, (tt, (refl, (tt, tt)))))))
      (unfold load in refl)

text_apart : (s t : Text) → text_eq s t ≡ false → s ≢ t
text_apart s t h = ground (arith, text_eq_iff s t)

-- Calls that leave the lock of `game/15` alone.
abbrev meanwhile : List Request
meanwhile =
    Request.get_and_lock (codes "game/16")
    ∷ Request.set (pos 30) (codes "game/15") (codes "2")
    ∷ Request.set_and_unlock (pos 31) (codes "game/16") (codes "3")
    ∷ Request.unlock (codes "game/17")
    ∷ Request.clear
    ∷ []

lock_excludes_example :
    (get_and_lock toy_codec
      (codes "game/15")
      (run toy_codec toy_merge meanwhile (get_and_lock toy_codec (codes "game/15") started).1)).0
    ≡ blocked
lock_excludes_example = lock_excludes toy_codec (codes "game/15") toy_merge meanwhile started refl (
  tt,
  (
    tt,
    (
      text_apart (codes "game/16") (codes "game/15") refl,
      (text_apart (codes "game/17") (codes "game/15") refl, (tt, tt)),
    ),
  ),
)

abbrev locked : Db
locked = record started { locks = (codes "game/15", true) ∷ [] }

keys_range_lem_example :
    Among (codes "game/15") (keys_range (codes "game/*") (pos 20) (pos 21) two_entries).0 ↔ (
      (load (codes "game/15") two_entries ≢ none)
      × (match (codes "game/*") (codes "game/15") ≡ true)
      × (pos 20 ≤ℤ key_time (codes "game/15"))
      × (key_time (codes "game/15") ≤ℤ pos 21))
keys_range_lem_example =
    keys_range_lem (codes "game/*") (pos 20) (pos 21) two_entries (codes "game/15") refl
      (omega arith)

-- What the calls leave under `game/1`, by the abstract storage.
plain_calls_view :
    run_view toy_codec toy_merge plain_calls (view_of toy_codec new_storage.mem) (codes "game/1")
    ≡ some (record {
      created = pos 5;
      updated = pos 6;
      index = codes "1";
      path = codes "game/1";
      body = codes "[1]";
    })
unfolding run_view step_view set_view patch_view is_valid glob_regex is_word ends_in_word last_index
    match path_match view_of load
plain_calls_view = refl
