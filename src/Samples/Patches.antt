-- ===== src/Samples/Patches.antt =====
-- A patch of a pattern at a concrete storage.
use ooo.Base.{codes, pos, refl, ◌≡◌, Text, if◌then◌else◌}
use ooo.Key.{is_valid, glob_regex, is_word, ends_in_word}
use ooo.Memory.State.{returned}
use ooo.Memory.Table.{load}
use ooo.Memory.Writes.{patch}
use ooo.Memory.Merged.{is_among, merged, before_error, first_error}
use ooo.Memory.Merged.Paths.{keys_of, patch_lem}
use ooo.Samples.{toy_codec, toy_merge}
use ooo.Samples.Storage.{started, started-IsStarted, two_entries}

patch_lem_example :
    ((patch toy_codec toy_merge (pos 40) (codes "game/*") (codes "2") started).0
      ≡ returned (
        codes "game/*",
        first_error toy_codec toy_merge
            (pos 40)
            (codes "2")
            (keys_of (codes "game/*") started)
            started,
      ))
    × ((j : Text)
        → load j (patch toy_codec toy_merge (pos 40) (codes "game/*") (codes "2") started).1.mem ≡ (
            if is_among j (
              before_error toy_codec toy_merge
                (pos 40)
                (codes "2")
                (keys_of (codes "game/*") started)
                started)
            then merged toy_codec toy_merge (pos 40) (codes "2") j started
            else load j two_entries))
patch_lem_example =
    patch_lem toy_codec toy_merge (pos 40) (codes "2") (codes "game/*") started
      (unfold is_valid glob_regex is_word ends_in_word in refl) refl
      (unfold load in (refl, (refl, tt))) started-IsStarted
