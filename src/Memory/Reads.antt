-- ===== src/Memory/Reads.antt =====
-- The operations of memory.go that only read.
use ooo.Base.{
  Bool, true, List, [], ◌∷◌, Option, none, some, Text, not, ◌&&◌, ◌||◌, if◌then◌else◌, has, length,
  take, ltb, text_lt, to_lower, split, last_part, ltb_ℤ, ℤ, pos, leb,
}
use ooo.Key.{match, decode}
use ooo.Key.Path.{star, slash}
use ooo.Meta.{Object, Codec, sort, sort_desc, sort_asc}
use ooo.Memory.Table.{Table, load, keys_if}
use ooo.Memory.State.{not_found, json, invalid_pattern, invalid_range, invalid_limit, Reply}

-- The creation time in a key: its last part, decoded.
unfoldable pub key_time : Text → ℤ
key_time key = decode (last_part (split slash key))

unfoldable pub in_time : ℤ → ℤ → Text → Bool
in_time from to key = not (ltb_ℤ (key_time key) from || ltb_ℤ to (key_time key))

unfoldable pub keys_range : Text → ℤ → ℤ → Table Text → Reply (List Text)
keys_range path from to mem =
    if not (has star path)
    then ([], some invalid_pattern)
    else if ltb_ℤ to from
    then ([], some invalid_range)
    else (keys_if (λ k. match path k && in_time from to k) mem, none)

-- The keys in the order of their lower-case forms, by insertion (`sort.Slice`).
insert_key : Text → List Text → List Text
insert_key k [] = k ∷ []
insert_key k (j ∷ l) = if text_lt (to_lower k) (to_lower j) then k ∷ j ∷ l else j ∷ insert_key k l

unfoldable pub sort_keys : List Text → List Text
unfolding insert_key
sort_keys [] = []
sort_keys (k ∷ l) = insert_key k (sort_keys l)

-- `meta.Encode`: no bytes beside an error.
abbrev pub encoded : Option Text → Reply Text
encoded none = ([], some json)
encoded (some bytes) = (bytes, none)

module _ (codec : Codec) where
  -- The objects under the keys that pass a test; what does not decode is left out. `Range` has no
  -- fixed order: here it is that of the list.
  unfoldable pub objects_if : (Text → Bool) → Table Text → List Object
  objects_if p [] = []
  objects_if p ((k, v) ∷ t) =
      let rest = objects_if p t in
      if p k then (elim (codec.decode_object v) [ none ↦ rest | some o ↦ o ∷ rest ]) else rest

  unfoldable pub keys : Table Text → Reply Text
  keys mem = encoded (codec.encode_keys (sort_keys (keys_if (λ _. true) mem)))

  -- `get`, with the comparison that `order` names.
  unfoldable pub get_ordered : (Object → Object → Bool) → Text → Table Text → Reply Text
  get_ordered less path mem =
      if not (has star path)
      then elim (load path mem) [ none ↦ ([], some not_found) | some value ↦ (value, none) ]
      else encoded (codec.encode_list (sort less (objects_if (match path) mem)))

  unfoldable pub get : Text → Table Text → Reply Text
  unfolding get_ordered
  get = get_ordered sort_asc

  unfoldable pub get_descending : Text → Table Text → Reply Text
  unfolding get_ordered
  get_descending = get_ordered sort_desc

  -- What `getN` and `GetNRange` share: the tests, the scan, the order and the cut.
  unfoldable pub first_n :
      (Object → Object → Bool) → Text → ℤ → (Text → Bool) → Table Text → Reply (List Object)
  first_n less path limit p mem =
      if not (has star path) then ([], some invalid_pattern) else elim limit [
        | ℤ.negsuc _ ↦ ([], some invalid_limit)
        | pos n ↦
            if leb n 0
            then ([], some invalid_limit)
            else let res = sort less (objects_if p mem) in
              (if ltb n (length res) then take n res else res, none)
      ]

  unfoldable pub get_n : Text → ℤ → Table Text → Reply (List Object)
  unfolding first_n
  get_n path limit = first_n sort_desc path limit (match path)

  unfoldable pub get_n_ascending : Text → ℤ → Table Text → Reply (List Object)
  unfolding first_n
  get_n_ascending path limit = first_n sort_asc path limit (match path)

  unfoldable pub get_n_range : Text → ℤ → ℤ → ℤ → Table Text → Reply (List Object)
  unfolding first_n
  get_n_range path limit from to =
      first_n sort_desc path limit (λ k. match path k && in_time from to k)
