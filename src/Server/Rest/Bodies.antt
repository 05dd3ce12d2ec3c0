-- ===== src/Server/Rest/Bodies.antt =====
-- What the tests of rest.go and filters.go let through: valid keys and bytes that are not empty.
use ooo.Base.{Bool, true, false, List, some, Text, ◌≡◌, inl, inr, arith, Option-cases, is_empty}
use ooo.Key.{is_valid}
use ooo.Meta.{Codec}
use ooo.Filters.{Filter, Result, ok, first_match, check, filtered, err}
use ooo.Messages.{Wire, decode_reader}
use ooo.Server.Rest.{is_writable}

pub is_writable-is_valid : (key : Text) → is_writable key ≡ true → is_valid key ≡ true
unfolding is_writable
is_writable-is_valid key h = ground arith

pub decode_reader-not_empty :
    (wire : Wire) (body event : Text)
    → decode_reader wire body ≡ some event
    → is_empty event ≡ false
unfolding decode_reader
decode_reader-not_empty wire body event h = ground arith

filtered-not_empty :
    (codec : Codec) (path bytes : Text) (r : Result Text)
    → filtered codec path r ≡ ok bytes
    → is_empty bytes ≡ false
unfolding filtered
filtered-not_empty codec path bytes (err e) h = ground arith
filtered-not_empty codec path bytes (ok body) h = ground arith

pub check-not_empty :
    (codec : Codec) (path body bytes : Text) (static : Bool) (r : List Filter)
    → is_empty body ≡ false
    → check codec path body static r ≡ ok bytes
    → is_empty bytes ≡ false
unfolding check
check-not_empty codec path body bytes static r n h =
    elim (Option-cases (first_match (λ (f : Filter). f.path) path r)) [
      | inl e ↦ ground arith
      | inr (f, e) ↦ filtered-not_empty codec path bytes (f.apply path body) (ground arith)
    ]
