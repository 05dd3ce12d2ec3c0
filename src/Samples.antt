-- ===== src/Samples.antt =====
-- Concrete libraries and data, on which the theorems are applied: a JSON codec, a merge, a patch
-- library and a wire format that keep what their laws ask for.
pub mod Keys
pub mod Storage
pub mod Listings
pub mod Wire
pub mod Streams
pub mod Requests
pub mod Clients
pub mod Configs
pub mod Caches
pub mod Workers
pub mod Subscribers
pub mod Sessions
pub mod Refused
pub mod Tests
pub mod Runs
pub mod Patches
pub mod Threads
use mathlib.Core.Option
use ooo.Base.{
  ℕ, zero, suc, ◌+◌, Bool, true, false, not, List, [], ◌∷◌, ◌++◌, Option, none, some, Text, codes,
  is_empty, length, take, drop, ◌≡◌, refl, ◌∙◌, ℤ, pos, arith,
}
use ooo.Meta.{Object, Codec, IsCodec}
use ooo.Memory.Writes.{Merge}

-- A number as two: its sign, and its size.
abbrev sign : ℤ → ℕ
sign (pos n) = 0
sign (ℤ.negsuc n) = 1

abbrev size : ℤ → ℕ
size (pos n) = n
size (ℤ.negsuc n) = n

abbrev number : ℕ → ℕ → ℤ
number zero n = pos n
number (suc s) n = ℤ.negsuc n

abbrev write_object : Object → Text
write_object o =
    sign o.created
    ∷ size o.created
    ∷ sign o.updated
    ∷ size o.updated
    ∷ length o.index
    ∷ length o.path
    ∷ (o.index ++ (o.path ++ o.body))

abbrev read_object : Text → Option Object
read_object (a ∷ b ∷ c ∷ d ∷ i ∷ p ∷ rest) = some (record {
  created = number a b;
  updated = number c d;
  index = take i rest;
  path = take p (drop i rest);
  body = drop p (drop i rest);
})
read_object _ = none

abbrev pub toy_codec : Codec
toy_codec = record {
  encode_object = write_object;
  decode_object = read_object;
  encode_list = λ l. some (length l ∷ []);
  decode_list = λ s. some [];
  encode_keys = λ l. some (length l ∷ []);
  encode_raw = λ s. some s;
  compact = λ s. s;
  is_json = λ s. not (is_empty s);
}

pub take-append : (s t : Text) → take (length s) (s ++ t) ≡ s
take-append [] t = refl
take-append (c ∷ s) t = rw (take-append s t)

pub drop-append : (s t : Text) → drop (length s) (s ++ t) ≡ t
drop-append [] t = refl
drop-append (c ∷ s) t = drop-append s t

pub number-sign : (z : ℤ) → number (sign z) (size z) ≡ z
number-sign (pos n) = refl
number-sign (ℤ.negsuc n) = refl

pub toy_codec-IsCodec : IsCodec toy_codec
toy_codec-IsCodec = record {
  round_trip = λ o j. rw (
    number-sign o.created,
    number-sign o.updated,
    take-append o.index (o.path ++ o.body),
    drop-append o.index (o.path ++ o.body),
    take-append o.path o.body,
    drop-append o.path o.body,
  );
  compact_json = λ s j. j;
}

-- A patch that replaces the document.
abbrev pub toy_merge : Merge
toy_merge a b = if_not_empty b
  where
    if_not_empty : Text → Option (Text × ℕ)
    if_not_empty [] = none
    if_not_empty (c ∷ s) = some (c ∷ s, 1)

pub toy_merge-json :
    (a b m : Text) (n : ℕ) → toy_merge a b ≡ some (m, n) → toy_codec.is_json m ≡ true
toy_merge-json a [] m n h = ground arith
toy_merge-json a (c ∷ s) m n h = ground arith
