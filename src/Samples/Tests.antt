-- ===== src/Samples/Tests.antt =====
-- The tests of storageTest.go at a concrete storage.
use ooo.Base.{
  ℕ, List, [], ◌∷◌, Option, some, Text, codes, text_eq, text_eq_refl, length, ℤ, pos, refl, ◌≡◌,
  map, arith,
}
use ooo.Key.{match}
use ooo.Key.Path.{path_match}
use ooo.Meta.{Object, Codec, IsCodec}
use ooo.Memory.State.{returned}
use ooo.Memory.Reads.{objects_if}
use ooo.Database.InMemory.{in_memory}
use ooo.Database.Conformance.{storage_object_test, set_get_del_test, keys_range_test}
use ooo.Database.Conformance.Numbered.{batch_set_test}
use ooo.Database.Conformance.Ranges.{keys_range_test_lem}
use ooo.Database.Conformance.Batches.{batch_set_test_lem}
use ooo.Database.Conformance.Passes.{storage_object_test_lem}
use ooo.Database.Conformance.Rounds.{set_get_del_test_lem}
use ooo.Samples.{toy_codec, toy_codec-IsCodec, toy_merge}
use ooo.Samples.Storage.{started, started-IsStarted}

storage_object_test_lem_example :
    (storage_object_test toy_codec text_eq
      (in_memory toy_codec toy_merge)
      (pos 4)
      (pos 9)
      (codes "{}")
      (codes "[1]")
      started).0
    ≡ returned tt
storage_object_test_lem_example =
    storage_object_test_lem toy_codec toy_merge text_eq (pos 4) (pos 9) (codes "{}") (codes "[1]")
      started toy_codec-IsCodec (λ s j. text_eq_refl s) (refl, refl) (refl, refl) started-IsStarted

-- A codec that writes a list without objects as JSON does.
abbrev write_list : List Object → Option Text
write_list [] = some (codes "[]")
write_list (o ∷ l) = some (length l ∷ [])

abbrev list_codec : Codec
list_codec = record toy_codec { encode_list = write_list }

list_codec-IsCodec : IsCodec list_codec
list_codec-IsCodec = record {
  round_trip = toy_codec-IsCodec.round_trip;
  compact_json = toy_codec-IsCodec.compact_json;
}

abbrev readings : List (ℕ × ℤ)
readings = (17, pos 18) ∷ (19, pos 20) ∷ []

set_get_del_test_lem_example :
    (set_get_del_test list_codec text_eq
      (in_memory list_codec toy_merge)
      (codes "{}")
      (map (λ r. (pos r.0, r.1)) readings)
      started).0
    ≡ returned tt
set_get_del_test_lem_example =
    set_get_del_test_lem list_codec toy_merge text_eq (codes "{}") readings started
      list_codec-IsCodec (λ s j. text_eq_refl s) refl refl refl started-IsStarted
      (unfold objects_if match path_match in refl)

abbrev later_readings : List (ℕ × ℤ)
later_readings = (17, pos 19) ∷ (20, pos 20) ∷ []

keys_range_test_lem_example :
    (keys_range_test
      (in_memory toy_codec toy_merge)
      (codes "{}")
      (map (λ r. (pos r.0, r.1)) ((17, pos 18) ∷ later_readings))
      started).0
    ≡ returned tt
keys_range_test_lem_example =
    keys_range_test_lem toy_codec toy_merge (codes "{}") 17 (pos 18) later_readings started refl
      (omega arith) (omega arith) started-IsStarted

batch_set_test_lem_example :
    (batch_set_test toy_codec
      (in_memory toy_codec toy_merge)
      (codes "{}")
      (codes "[1]")
      (codes "[1]")
      (pos 30)
      4
      started).0
    ≡ returned tt
batch_set_test_lem_example =
    batch_set_test_lem toy_codec toy_merge (codes "{}") (codes "[1]") (codes "[1]") 0 (pos 30) 4
      started toy_codec-IsCodec (refl, refl) (refl, refl) refl refl started-IsStarted
