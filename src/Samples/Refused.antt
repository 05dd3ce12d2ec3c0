-- ===== src/Samples/Refused.antt =====
-- Requests that fail, a PUT of a pattern, and a PUT that is read, at a concrete server.
use ooo.Base.{true, codes, ◌≡◌, refl, pos, ℤ, Text, text_eq, is_empty, some, false}
use ooo.Key.{is_word, ends_in_word, glob_regex, is_valid, last_index}
use ooo.Meta.{Object, empty_object}
use ooo.Memory.Contents.{written}
use ooo.Memory.State.{returned}
use ooo.Filters.{check, first_match}
use ooo.Messages.{decode_reader}
use ooo.Server.Rest.{Response, text, is_writable, publish, republish, patch, unpublish, read}
use ooo.Server.Rest.Stored.{index_response}
use ooo.Server.Rest.Round.{republish-read}
use ooo.Server.Rest.Refused.{Answered, refused-unchanged, republish-silent}
use ooo.Samples.{toy_codec, toy_codec-IsCodec, toy_merge}
use ooo.Samples.Wire.{toy_wire}
use ooo.Samples.Storage.{started-IsStarted}
use ooo.Samples.Requests.{server, request}

refused-unchanged_example :
    Answered (publish toy_codec toy_wire (pos 30) (pos 31) (request (codes "game/15"))) server
    × Answered (republish toy_codec toy_wire (pos 30) (request (codes "game/15"))) server
    × Answered (patch toy_codec toy_wire toy_merge (pos 30) (request (codes "game/99"))) server
    × Answered (unpublish (request (codes "game/15"))) server
refused-unchanged_example =
    refused-unchanged toy_codec toy_wire toy_merge (pos 30) (pos 31) (request (codes "game/15"))
      (request (codes "game/99")) server started-IsStarted refl

republish-silent_example :
    (response : Response) × ((republish toy_codec toy_wire
        (pos 30)
        (request (codes "game/*"))
        server).0
      ≡ returned response)
    × (response.status ≡ 200)
    × ((republish toy_codec toy_wire (pos 30) (request (codes "game/*")) server).1.storage
        ≡ server.storage)
unfolding is_writable is_valid glob_regex is_word ends_in_word decode_reader check first_match
republish-silent_example =
    republish-silent toy_codec toy_wire (pos 30) (request (codes "game/*")) server (codes "[3]")
      (codes "[3]") refl refl refl refl refl refl

toy_codec-writes :
    (o : Object)
    → toy_codec.is_json o.body ≡ true
    → (is_empty (toy_codec.encode_object o) ≡ false)
      × (text_eq (toy_codec.encode_object o) empty_object ≡ false)
toy_codec-writes o j = signed o.created
  where
    signed :
        (z : ℤ)
        → (is_empty (toy_codec.encode_object (record o { created = z })) ≡ false)
          × (text_eq (toy_codec.encode_object (record o { created = z })) empty_object ≡ false)
    signed (pos n) = (refl, refl)
    signed (ℤ.negsuc n) = (refl, refl)

republish-read_example :
    ((republish toy_codec toy_wire (pos 30) (request (codes "game/15")) server).0
      ≡ returned (index_response (last_index (codes "game/15"))))
    × (t : Text) × ((read toy_codec
          (pos 40)
          (request (codes "game/15"))
          (republish toy_codec toy_wire (pos 30) (request (codes "game/15")) server).1).0
        ≡ returned (record { status = 200; body = text t }))
    × (toy_codec.decode_object t
        ≡ some (
            written toy_codec toy_codec-IsCodec server.storage.mem
              (codes "game/15")
              (codes "[3]")
              (pos 30)))
unfolding is_writable is_valid glob_regex is_word ends_in_word first_match check decode_reader
republish-read_example =
    republish-read toy_codec toy_codec-IsCodec toy_wire (pos 30) (pos 40)
      (request (codes "game/15")) server (codes "[3]") (codes "[3]") toy_codec-writes refl refl refl
      refl refl refl refl refl started-IsStarted
