-- ===== src/Samples/Threads.antt =====
-- Two patches of a key at once, of which one is lost.
use ooo.Base.{ℕ, [], ◌∷◌, ◌++◌, codes, pos, refl, ◌≡◌, some, none, true, Text, arith}
use ooo.Key.{is_valid, glob_regex, is_word, ends_in_word, last_index}
use ooo.Memory.Table.{load, store}
use ooo.Memory.Writes.{Merge, peek}
use ooo.Memory.Entries.{IsWell}
use ooo.Memory.Threads.{
  Shared, Reach, start, later, set_peek, patch_load, patch_peek, put_entry, Reach-IsWell,
}
use ooo.Samples.{toy_codec, toy_codec-IsCodec}

-- A merge that puts the patch behind the document.
abbrev join : Merge
join a [] = none
join a (c ∷ s) = some (a ++ c ∷ s, 1)

join-json : (a b m : Text) (n : ℕ) → join a b ≡ some (m, n) → toy_codec.is_json m ≡ true
join-json a [] m n h = absurd (ground arith)
join-json [] (c ∷ s) m n h = ground arith
join-json (d ∷ a) (c ∷ s) m n h = ground arith

abbrev game : Text
game = codes "game/1"

lost_patch :
    (s : Shared toy_codec join) × Reach toy_codec join s
    × (elim (load game s.mem) [
      | none ↦ none
      | some value ↦ elim (toy_codec.decode_object value) [ none ↦ none | some o ↦ some o.body ]
    ]
        ≡ some (codes "57"))
unfolding is_valid glob_regex is_word ends_in_word last_index load store peek
lost_patch = (
  _,
  later
      (later
        (later
          (later
            (later
              (later
                (later (later start 0 (set_peek (pos 1) game (codes "5") refl refl)) 0 put_entry) 0
                (patch_load game (codes "6") _ _ _ _ refl refl refl (λ e. ground arith)))
              1 (patch_load game (codes "7") _ _ _ _ refl refl refl (λ e. ground arith)))
            0 (patch_peek (pos 2)))
          0 put_entry)
        1 (patch_peek (pos 3)))
      1 put_entry,
  refl,
)

Reach-IsWell_example : IsWell toy_codec lost_patch.0.mem
Reach-IsWell_example =
    Reach-IsWell toy_codec join toy_codec-IsCodec join-json lost_patch.0 lost_patch.1
