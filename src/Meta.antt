-- ===== src/Meta.antt =====
-- meta/objects.go: the stored objects, their order by creation time, and their JSON form.
-- The JSON library (goccy/go-json) is no part of the repository: it is the parameter `Codec`.
use ooo.Base.{Bool, true, List, [], ◌∷◌, Option, some, Text, ℤ, ltb_ℤ, ◌≡◌, if◌then◌else◌, codes}

-- `meta.Object`; `body` is its field `Data`.
pub record Object : Type 0 where
  pub created : ℤ
  pub updated : ℤ
  pub index : Text
  pub path : Text
  pub body : Text

-- `meta.EmptyObject`
abbrev pub empty_object : Text
empty_object = codes "{ \"created\": 0, \"updated\": 0, \"index\": \"\", \"data\": {} }"

-- The comparisons of `SortDesc` and `SortAsc`.
abbrev pub sort_desc : Object → Object → Bool
sort_desc a b = ltb_ℤ b.created a.created

abbrev pub sort_asc : Object → Object → Bool
sort_asc a b = ltb_ℤ a.created b.created

-- Go's `sort.Slice` as insertion sort, which it is up to twelve elements. With more of them it may
-- put those of the same time in any order.
unfoldable pub insert : (Object → Object → Bool) → Object → List Object → List Object
insert less x [] = x ∷ []
insert less x (y ∷ ys) = if less x y then x ∷ y ∷ ys else y ∷ insert less x ys

unfoldable pub sort_onto : (Object → Object → Bool) → List Object → List Object → List Object
sort_onto less sorted [] = sorted
sort_onto less sorted (x ∷ xs) = sort_onto less (insert less x sorted) xs

unfoldable pub sort : (Object → Object → Bool) → List Object → List Object
unfolding sort_onto insert
sort less xs = sort_onto less [] xs

-- What the repository uses of the JSON library. `encode_object` is what an encoder leaves in the
-- buffer of `New`, `encode_list` and `encode_keys` are `Marshal`, `decode_object` and
-- `decode_list` are `Unmarshal`; `none` is an error. `encode_raw` is `Marshal` of a `RawMessage`.
pub record Codec : Type 0 where
  pub encode_object : Object → Text
  pub decode_object : Text → Option Object
  pub encode_list : List Object → Option Text
  pub decode_list : Text → Option (List Object)
  pub encode_keys : List Text → Option Text
  pub encode_raw : Text → Option Text
  pub compact : Text → Text
  pub is_json : Text → Bool

-- What the library documents, as far as proofs need it: an object with a JSON body is written
-- and read back with its body compacted, and a compacted body stays as it is.
pub record IsCodec (c : Codec) : Type 0 where
  pub round_trip :
      (o : Object)
      → c.is_json o.body ≡ true
      → c.decode_object (c.encode_object o) ≡ some (record o { body = c.compact o.body })
  pub compact_json : (s : Text) → c.is_json s ≡ true → c.is_json (c.compact s) ≡ true
