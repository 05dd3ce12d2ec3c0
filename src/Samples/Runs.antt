-- ===== src/Samples/Runs.antt =====
-- The tests of storageTest.go that read lists, run on a concrete storage.
use ooo.Base.{
  true, false, ℕ, ◌+◌, ◌-◌, List, [], ◌∷◌, ◌++◌, Option, none, some, Text, codes, text_eq, length,
  ℤ, pos, refl, ◌≡◌, itoa, decimal_digits, zero, suc, take, drop, if◌then◌else◌,
}
use ooo.Key.{
  match, peer, is_valid, glob_regex, is_word, ends_in_word, contains, last_index, decode, build,
  replace_glob,
}
use ooo.Key.Hex.{digit_value, negative, parse_digits, parse_int, parse_unsigned, format_int}
use ooo.Key.Path.{path_match}
use ooo.Meta.{Object, Codec, sort, sort_onto, insert}
use ooo.Memory.Table.{store, load, delete, delete_if, keys_if}
use ooo.Memory.Writes.{clear, set_with_meta, set, entry, peek, del}
use ooo.Memory.State.{Db, Call, returned, panicked, blocked, notify}
use ooo.Memory.Reads.{
  get, get_descending, get_ordered, get_n, get_n_ascending, objects_if, get_n_range, first_n,
  in_time, key_time, keys, sort_keys,
}
use ooo.Messages.{decode_reader}
use ooo.Filters.{check, check_watchers, first_match}
use ooo.Server.Rest.{Body, publish, write_request, is_writable}
use ooo.Database.InMemory.{in_memory}
use ooo.Database.Conformance.Numbered.{get_n_range_test, set_created, get_n_test, set_numbered}
use ooo.Database.Conformance.Listed.{storage_list_test, check_objects, set_indexed, get_counted}
use ooo.Samples.{toy_codec, toy_merge}
use ooo.Samples.Wire.{toy_wire}
use ooo.Samples.Storage.{started}
use ooo.Samples.Requests.{server}

-- The two tests that read lists, on numbered keys.
get_n_range_test_passes :
    (get_n_range_test toy_codec (in_memory toy_codec toy_merge) (codes "{}") 4 started).0
    ≡ returned tt
unfolding get_n_range_test set_created clear set_with_meta is_valid itoa decimal_digits glob_regex
    is_word ends_in_word notify contains last_index get_n_range first_n sort sort_onto insert
    objects_if store in_time key_time decode digit_value negative parse_digits parse_int
    parse_unsigned match peer path_match
get_n_range_test_passes = refl

-- A codec that writes a list of objects one after the other, each behind its length, and reads it
-- again, on fuel.
abbrev write_objects : List Object → Text
write_objects [] = []
write_objects (o ∷ l) =
    let bytes = toy_codec.encode_object o in length bytes ∷ bytes ++ write_objects l

abbrev read_objects : ℕ → Text → List Object
read_objects zero s = []
read_objects (suc fuel) [] = []
read_objects (suc fuel) (n ∷ s) =
    let rest = read_objects fuel (drop n s) in
    elim (toy_codec.decode_object (take n s)) [ none ↦ rest | some o ↦ o ∷ rest ]

abbrev readable_codec : Codec
readable_codec = record toy_codec {
  encode_list = λ l. some (write_objects l);
  decode_list = λ s. some (read_objects (length s) s);
}

get_n_test_passes :
    (get_n_test readable_codec
      (in_memory readable_codec toy_merge)
      (codes "{}")
      (pos 5 ∷ pos 7 ∷ pos 8 ∷ [])
      started).0
    ≡ returned tt
unfolding get_n_test set_numbered clear set is_valid itoa decimal_digits glob_regex is_word
    ends_in_word notify contains last_index get_n get_n_ascending first_n sort sort_onto insert
    objects_if store match peer path_match get get_descending get_ordered entry peek load
get_n_test_passes = refl

-- The codec with the other JSON that the test looks at: the list of the keys, and the answer to a POST.
abbrev write_keys : List Text → Text
write_keys [] = []
write_keys (k ∷ []) = codes "\"" ++ (k ++ codes "\"")
write_keys (k ∷ j ∷ keys) = codes "\"" ++ (k ++ (codes "\"," ++ write_keys (j ∷ keys)))

abbrev read_index : Text → Option Object
read_index s = some (record {
  created = pos 0;
  updated = pos 0;
  index = take (length s - 12) (drop 10 s);
  path = [];
  body = [];
})

abbrev json_codec : Codec
json_codec = record readable_codec {
  decode_object =
      λ s. if text_eq (take 1 s) (codes "{") then read_index s else toy_codec.decode_object s;
  encode_keys = λ keys. some (codes "{\"keys\":[" ++ (write_keys keys ++ codes "]}"));
}

abbrev answer : Body → Text
answer (Body.text t) = t
answer (Body.storage_error e) = []
answer Body.decode_error = []

-- The router, which gives a POST to `publish` of a server that has the storage.
abbrev post_to : ℤ → Text → Text → Call Db (ℕ × Text)
post_to time path body db =
    let (result, app) =
      publish json_codec toy_wire time time
        (record { authorized = true; websocket = false; key = path; body = body })
        (record server { storage = db }) in
    (
      elim result [
        | returned r ↦ returned (r.status, answer r.body)
        | panicked ↦ panicked
        | blocked ↦ blocked
      ],
      app.storage,
    )

storage_list_test_passes :
    (storage_list_test json_codec text_eq
      (in_memory json_codec toy_merge)
      (post_to (pos 99))
      (λ n. pos (100 + n))
      (codes "[3]")
      (codes "[1]")
      started).0
    ≡ returned tt
unfolding storage_list_test check_objects set_indexed get_counted clear set is_valid glob_regex
    is_word ends_in_word notify contains last_index sort sort_onto insert objects_if store match
    peer path_match get get_ordered entry peek load keys publish write_request is_writable
    decode_reader check first_match build replace_glob format_int del delete delete_if keys_if
    sort_keys check_watchers
storage_list_test_passes = refl
