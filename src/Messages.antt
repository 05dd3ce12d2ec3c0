-- ===== src/Messages.antt =====
-- messages/messages.go: what a client makes of the messages of a subscription. The JSON and the
-- JSON patch libraries are no part of the repository: they are the parameter `Wire`.
use ooo.Base.{
  Bool, List, [], Option, none, some, Text, text_eq, codes, is_empty, if◌then◌else◌, pos,
}
use ooo.Meta.{Object, Codec}

-- `Message`
pub record Message : Type 0 where
  pub body : Text
  pub version : Text
  pub snapshot : Bool

-- `Unmarshal` of a message: what it fills in and whether there was an error. `Decode` of a request's
-- body. `DecodePatch` and `Apply`: an outer `none` is an error, an inner one is nil.
pub record Wire : Type 0 where
  pub decode_message : Text → Message × Bool
  pub decode_body : Text → Option Text
  pub decode_patch : Text → Option (Option (List Text))
  pub apply_patch : List Text → Text → Option (Option Text)

pub data Error : Type 0 where
  empty_body json patching : Error

module _ (wire : Wire) where
  -- `DecodeBuffer`
  unfoldable pub decode_buffer : Text → Message × Option Error
  decode_buffer bytes =
      let (event, failed) = wire.decode_message bytes in
      (event, if is_empty event.body then some empty_body else if failed then some json else none)

  -- `DecodeReader`, on what the reader holds; without the error's value.
  unfoldable pub decode_reader : Text → Option Text
  decode_reader bytes = elim (wire.decode_body bytes) [
    | none ↦ none
    | some body ↦ if is_empty body then none else some body
  ]

  -- What applying the operations gives; without operations, or without bytes, the cache stays.
  unfoldable pub apply_operations : Text → Text → Text × Option Error
  apply_operations operations cache = elim (wire.decode_patch operations) [
    | none ↦ (cache, some patching)
    | some none ↦ (cache, none)
    | some (some patch) ↦ elim (wire.apply_patch patch cache) [
      | none ↦ (cache, some patching)
      | some none ↦ (cache, none)
      | some (some modified) ↦ (modified, none)
    ]
  ]

  unfoldable pub patch_cache : Text → Text → Text × Option Error
  patch_cache bytes cache =
      let (message, err) = decode_buffer bytes in
      elim err [
        | some e ↦ (cache, some e)
        | none ↦
            if message.snapshot
            then (message.body, none)
            else if text_eq message.body (codes "[]")
            then (cache, none)
            else apply_operations message.body cache
      ]

  -- What `Patch` and `PatchList` share: the cache, and its decoding if there was no error.
  abbrev decoded {ℓ} :
      {A : Type ℓ} → A → (Text → Option A) → Text × Option Error → Text × A × Option Error
  decoded empty decode (cache, some e) = (cache, empty, some e)
  decoded empty decode (cache, none) = elim (decode cache) [
    | none ↦ (cache, empty, some json)
    | some result ↦ (cache, result, none)
  ]

  abbrev pub no_object : Object
  no_object = record { created = pos 0; updated = pos 0; index = []; path = []; body = [] }

  unfoldable pub patch : Codec → Text → Text → Text × Object × Option Error
  patch codec bytes cache = decoded no_object codec.decode_object (patch_cache bytes cache)

  unfoldable pub patch_list : Codec → Text → Text → Text × List Object × Option Error
  patch_list codec bytes cache = decoded [] codec.decode_list (patch_cache bytes cache)
