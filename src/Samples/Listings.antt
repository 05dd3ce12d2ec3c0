-- ===== src/Samples/Listings.antt =====
-- The lists that memory.go's reads return of a concrete map.
use ooo.Base.{List, [], ◌∷◌, none, true, codes, Text, ◌≡◌, refl, arith, ℤ, pos, ◌≤ℤ◌}
use ooo.Key.{is_word, ends_in_word, glob_regex, is_valid, match, last_index}
use ooo.Meta.{Object}
use ooo.Memory.Table.{store}
use ooo.Memory.Reads.{get, get_descending, get_n, get_n_ascending, get_n_range, key_time, encoded}
use ooo.Memory.Entries.{IsWell, IsWell-nil, store-IsWell, encoded-IsEntry}
use ooo.Memory.Sorted.{IsOldestFirst, IsNewestFirst}
use ooo.Memory.Listed.{IsListing}
use ooo.Memory.Lists.{AreFirst, get_lem, get_n_lem}
use ooo.Samples.{toy_codec, toy_codec-IsCodec}
use ooo.Samples.Storage.{value, two_entries}

-- The object of a sample value.
abbrev sample : Text → Text → ℤ → Object
sample key index created = record {
  created = created;
  updated = pos 0;
  index = index;
  path = key;
  body = codes "1";
}

two_entries-IsWell : IsWell toy_codec two_entries
unfolding store
two_entries-IsWell =
    store-IsWell toy_codec (codes "game/15") (value (codes "game/15") (codes "15") (pos 21))
      ((codes "game/16", value (codes "game/16") (codes "16") (pos 22)) ∷ [])
      (encoded-IsEntry toy_codec toy_codec-IsCodec (sample (codes "game/15") (codes "15") (pos 21))
        (unfold is_valid glob_regex is_word ends_in_word in refl) (unfold last_index in refl) refl)
      (store-IsWell toy_codec (codes "game/16") (value (codes "game/16") (codes "16") (pos 22)) []
        (encoded-IsEntry toy_codec toy_codec-IsCodec
          (sample (codes "game/16") (codes "16") (pos 22))
          (unfold is_valid glob_regex is_word ends_in_word in refl) (unfold last_index in refl)
          refl)
        (IsWell-nil toy_codec))

get_lem_example :
    (up : List Object) × (down : List Object) × (get toy_codec (codes "game/*") two_entries
      ≡ encoded (toy_codec.encode_list up))
    × (get_descending toy_codec (codes "game/*") two_entries ≡ encoded (toy_codec.encode_list down))
    × IsListing toy_codec (λ k. match (codes "game/*") k ≡ true) two_entries up
    × IsListing toy_codec (λ k. match (codes "game/*") k ≡ true) two_entries down
    × IsOldestFirst up
    × IsNewestFirst down
get_lem_example = get_lem toy_codec two_entries two_entries-IsWell (codes "game/*") refl

get_n_lem_example :
    (newest : List Object) × (oldest : List Object) × (within : List Object) × (get_n toy_codec
        (codes "game/*")
        (pos 1)
        two_entries
      ≡ (newest, none))
    × (get_n_ascending toy_codec (codes "game/*") (pos 1) two_entries ≡ (oldest, none))
    × (get_n_range toy_codec (codes "game/*") (pos 1) (pos 20) (pos 21) two_entries
        ≡ (within, none))
    × AreFirst toy_codec (λ k. match (codes "game/*") k ≡ true) two_entries 1 IsNewestFirst newest
    × AreFirst toy_codec (λ k. match (codes "game/*") k ≡ true) two_entries 1 IsOldestFirst oldest
    × AreFirst toy_codec
        (λ k. (match (codes "game/*") k ≡ true) × (pos 20 ≤ℤ key_time k) × (key_time k ≤ℤ pos 21))
        two_entries
        1
        IsNewestFirst
        within
get_n_lem_example =
    get_n_lem toy_codec two_entries two_entries-IsWell (codes "game/*") 1 (pos 20) (pos 21) refl
      (omega arith)
