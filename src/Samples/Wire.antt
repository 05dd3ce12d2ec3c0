-- ===== src/Samples/Wire.antt =====
-- A patch library and a wire format: a patch holds the new document, and messages are read back
-- from their frames.
use ooo.Base.{
  ℕ, suc, Bool, true, false, not, List, [], ◌∷◌, ◌++◌, Option, none, some, Text, codes, is_empty,
  drop, has, ◌==◌, ◌≡◌, refl, ap, ℤ, pos, arith, if◌then◌else◌, All,
}
use ooo.Key.{is_word}
use ooo.Key.Hex.{hex_digits, format_int}
use ooo.Key.Stamp.{stamp-IsDigit, hex_digits-IsDigit, IsDigit}
use ooo.Stream.{Differ, frame}
use ooo.Messages.{Wire, Message}
use ooo.Sync.{IsWire}

abbrev write_patch : List Text → Option Text
write_patch [] = none
write_patch (b ∷ _) = some (1 ∷ b)

abbrev read_patch : Text → Option (Option (List Text))
read_patch [] = none
read_patch (_ ∷ b) = some (some (b ∷ []))

abbrev apply_patch : List Text → Text → Option (Option Text)
apply_patch [] c = some none
apply_patch (b ∷ _) c = some (some b)

abbrev pub toy_differ : Differ
toy_differ = record { create_patch = λ a b. some (b ∷ []); encode_patch = write_patch }

-- What stands before a quote, what stands after it, and all but the last character.
abbrev before : Text → Text
before [] = []
before (c ∷ s) = if c == b'"' then [] else c ∷ before s

abbrev after : Text → Text
after [] = []
after (c ∷ s) = if c == b'"' then s else after s

abbrev but_last : Text → Text
but_last [] = []
but_last (c ∷ []) = []
but_last (c ∷ d ∷ s) = c ∷ but_last (d ∷ s)

abbrev is_snapshot : Text → Bool
is_snapshot [] = false
is_snapshot (c ∷ s) = c == b't'

abbrev read_version : Text → Bool → Message
read_version s snapshot = record {
  body = but_last (drop 8 (after s));
  version = before s;
  snapshot = snapshot;
}

abbrev read_message : Text → Message
read_message s =
    if is_snapshot s then read_version (drop 16 s) true else read_version (drop 17 s) false

abbrev pub toy_wire : Wire
toy_wire = record {
  decode_message = λ s. (read_message (drop 12 s), false);
  decode_body = λ s. some s;
  decode_patch = read_patch;
  apply_patch = apply_patch;
}

before-quote : (v t : Text) → has b'"' v ≡ false → before (v ++ b'"' ∷ t) ≡ v
before-quote [] t h = refl
before-quote (c ∷ v) t h = ground (arith, before-quote v t)

after-quote : (v t : Text) → has b'"' v ≡ false → after (v ++ b'"' ∷ t) ≡ t
after-quote [] t h = refl
after-quote (c ∷ v) t h = ground (arith, after-quote v t)

but_last-append : (s : Text) (c : ℕ) → but_last (s ++ c ∷ []) ≡ s
but_last-append [] c = refl
but_last-append (a ∷ []) c = refl
but_last-append (a ∷ b ∷ s) c = rw (but_last-append (b ∷ s) c)

digits-quote : (s : Text) → All IsDigit s → has b'"' s ≡ false
unfolding is_word
digits-quote [] h = refl
digits-quote (c ∷ s) h = ground (arith, h.0.4, digits-quote s h.1)

format_int-quote : (v : ℤ) → has b'"' (format_int v) ≡ false
format_int-quote (pos n) = digits-quote (format_int (pos n)) (stamp-IsDigit n)
format_int-quote (ℤ.negsuc n) =
    unfold format_int in
    ground (arith, digits-quote (hex_digits 16 (suc n) []) (hex_digits-IsDigit 16 (suc n) [] tt))

read-frame :
    (body : Text) (snapshot : Bool) (version : ℤ)
    → read_message (drop 12 (frame body snapshot version))
      ≡ record { body = body; version = format_int version; snapshot = snapshot }
unfolding frame
read-frame body true version =
    let t = codes ",\"data\":" ++ (body ++ codes "}") in
    rw (
      before-quote (format_int version) t (format_int-quote version),
      after-quote (format_int version) t (format_int-quote version),
      but_last-append body b'}',
    )
read-frame body false version =
    let t = codes ",\"data\":" ++ (body ++ codes "}") in
    rw (
      before-quote (format_int version) t (format_int-quote version),
      after-quote (format_int version) t (format_int-quote version),
      but_last-append body b'}',
    )

abbrev pub is_document : Text → Bool
is_document s = not (is_empty s)

pub toy_wire-IsWire : IsWire toy_differ toy_wire (λ s. s) is_document
toy_wire-IsWire = record {
  read_document = λ body version h.
      (body, ap (λ m. (m, false)) (read-frame body true version), ground arith, refl);
  not_empty = λ body h. ground arith;
  read_patch = λ operations o version e.
      (ap (λ m. (m, false)) (read-frame o false version), filled operations o e);
  patch_apply =
      λ a b c operations o e f h. (b ∷ [], b, read_written b operations o e f, refl, refl);
  patch_nothing = λ a b operations e f. absurd (not_nothing b operations e f);
}
  where
    filled :
        (operations : List Text) (o : Text) → write_patch operations ≡ some o → is_empty o ≡ false
    filled [] o h = ground arith
    filled (b ∷ l) o h = ground arith

    read_written :
        (b : Text) (operations : List Text) (o : Text)
        → some (b ∷ []) ≡ some operations
        → write_patch operations ≡ some o
        → read_patch o ≡ some (some (b ∷ []))
    read_written b [] o e f = ground arith
    read_written b (c ∷ l) o e f = ground arith

    not_nothing :
        (b : Text) (operations : List Text)
        → some (b ∷ []) ≡ some operations
        → write_patch operations ≡ some (codes "[]")
        → ⊥
    not_nothing b [] e f = ground arith
    not_nothing b (c ∷ l) e f = ground arith
