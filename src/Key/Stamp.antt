-- ===== src/Key/Stamp.antt =====
-- The creation times that `Build` writes into keys and `Decode` reads back (key/key.go).
use ooo.Base.{
  ℕ, zero, suc, ◌+◌, ◌*◌, ◌/◌, ◌%◌, ◌^◌, ◌≤◌, ◌<◌, ◌≡◌, refl, ap, ◌∙◌, ◌≢◌, true, false, some,
  if◌then◌else◌, ==-false, codes, [], ◌∷◌, ◌++◌, Text, has, ltb, arith, pos, All, Bool-cases, inl,
  inr,
}
use mathlib.Core.List.{append-nil}
use ooo.Key.Search.{IsPlain, IsPlain-append}
use ooo.Key.Matching.{match_iff}
use ooo.Key.{match, build, decode, last_index, replace_glob, is_word}
use ooo.Key.Path.{star, slash}
use ooo.Key.Hex.{
  max_int64, unsigned, hex_digit, hex_digits, format_int, digit_value, parse_digits, parse_int,
}
use ooo.Key.Glob.{same, Glob-literal, Glob-star}
use native.Mathlib.Nat.{pow-suc}

digit_value-hex_digit : (d : ℕ) → d < 16 → digit_value (hex_digit d) ≡ some d
unfolding digit_value hex_digit
digit_value-hex_digit d h = ground arith

parse_digits-digit :
    (m d : ℕ) (acc : Text)
    → d < 16
    → parse_digits m (hex_digit d ∷ acc) ≡ parse_digits (m * 16 + d) acc
unfolding parse_digits
parse_digits-digit m d acc h = ground (arith, digit_value-hex_digit d h)

-- Reading back the digits of `n` goes on, at `n`, with what follows them.
parse_digits-hex_digits :
    (f n : ℕ) (acc : Text) → n < 16 ^ f → parse_digits 0 (hex_digits f n acc) ≡ parse_digits n acc
unfolding hex_digits
parse_digits-hex_digits zero n acc h = let e : n ≡ 0 = omega arith in rw e
parse_digits-hex_digits (suc f) n acc h = elim (Bool-cases (ltb n 16)) [
  | inl e ↦
      rw e (parse_digits-digit 0 n acc (ground arith) ∙ ap (λ m. parse_digits m acc) (omega arith))
  | inr e ↦ rw e (
      parse_digits-hex_digits f (n / 16) (hex_digit (n % 16) ∷ acc) (ground (arith, pow-suc 16 f))
      ∙ (parse_digits-digit (n / 16) (n % 16) acc (omega arith)
          ∙ ap (λ m. parse_digits m acc) (omega arith)))
]

-- A digit is a word character, but no sign, no star and no slash.
abbrev pub IsDigit : ℕ → Type 0
IsDigit c = (c ≢ b'-') × (c ≢ b'+') × (c ≢ star) × (c ≢ slash) × (is_word c ≡ true)

hex_digit-IsDigit : (d : ℕ) → d < 16 → IsDigit (hex_digit d)
unfolding hex_digit is_word
hex_digit-IsDigit d h = ground arith

pub hex_digits-IsDigit : (f n : ℕ) (acc : Text) → All IsDigit acc → All IsDigit (hex_digits f n acc)
unfolding hex_digits
hex_digits-IsDigit zero n acc h = h
hex_digits-IsDigit (suc f) n acc h = elim (Bool-cases (ltb n 16)) [
  | inl e ↦ rw (e, if◌then◌else◌) (hex_digit-IsDigit n (ground arith), h)
  | inr e ↦
      rw (e, if◌then◌else◌)
        (hex_digits-IsDigit f (n / 16) (hex_digit (n % 16) ∷ acc)
          (hex_digit-IsDigit (n % 16) (omega arith), h))
]

hex_digits-ne-nil : (f n : ℕ) (acc : Text) → acc ≢ [] → hex_digits f n acc ≢ []
unfolding hex_digits
hex_digits-ne-nil zero n acc h = h
hex_digits-ne-nil (suc f) n acc h =
    ground (arith, hex_digits-ne-nil f (n / 16) (hex_digit (n % 16) ∷ acc) (λ e. cc))

abbrev pub stamp : ℕ → Text
stamp n = format_int (pos n)

pub stamp-IsDigit : (n : ℕ) → All IsDigit (stamp n)
stamp-IsDigit n = unfold format_int in hex_digits-IsDigit 16 n [] tt

pub stamp-has : (s : Text) → All IsDigit s → (has star s ≡ false) × (has slash s ≡ false)
stamp-has [] h = (refl, refl)
stamp-has (c ∷ s) h = ground (arith, stamp-has s h.1)

parse_int-digits : (s : Text) → s ≢ [] → All IsDigit s → parse_int s ≡ unsigned (parse_digits 0 s)
unfolding parse_int
parse_int-digits [] n h = absurd (n refl)
parse_int-digits (c ∷ s) n h = rw (==-false h.0.0, ==-false h.0.1)

pub stamp-ne-nil : (n : ℕ) → stamp n ≢ []
stamp-ne-nil n =
    unfold format_int hex_digits in
    ground (arith, hex_digits-ne-nil 15 (n / 16) (hex_digit (n % 16) ∷ []) (λ e. cc))

parse_digits-stamp : (n : ℕ) → n ≤ max_int64 → parse_digits 0 (stamp n) ≡ some n
parse_digits-stamp n h =
    unfold format_int in parse_digits-hex_digits 16 n [] (omega arith) ∙ unfold parse_digits in refl

unsigned-some : (n : ℕ) → n ≤ max_int64 → unsigned (some n) ≡ some (pos n)
unsigned-some n h = ground arith

parse_int-stamp : (n : ℕ) → n ≤ max_int64 → parse_int (stamp n) ≡ some (pos n)
parse_int-stamp n h =
    parse_int-digits (stamp n) (stamp-ne-nil n) (stamp-IsDigit n)
    ∙ (ap unsigned (parse_digits-stamp n h) ∙ unsigned-some n h)

-- `Decode` gives back a time that was written in hexadecimal, if it is not negative and an `int64`
-- holds it.
pub decode-format_int : (n : ℕ) → n ≤ max_int64 → decode (format_int (pos n)) ≡ pos n
unfolding decode
decode-format_int n h = rw (decode, parse_int-stamp n h)

pub replace_glob-prefix :
    (index prefix : Text)
    → has star prefix ≡ false
    → replace_glob index (prefix ++ slash ∷ star ∷ []) ≡ prefix ++ slash ∷ index
unfolding replace_glob
replace_glob-prefix index [] h = rw (append-nil index)
replace_glob-prefix index (c ∷ []) h =
    ground (arith, replace_glob-prefix index [] refl, append-nil index)
replace_glob-prefix index (c ∷ d ∷ prefix) h =
    ground (arith, replace_glob-prefix index (d ∷ prefix))

pub has-append_star : (prefix : Text) → has star (prefix ++ slash ∷ star ∷ []) ≡ true
has-append_star [] = refl
has-append_star (c ∷ prefix) = ground (arith, has-append_star prefix)

pub last_index-prefix :
    (prefix index : Text) → has slash index ≡ false → last_index (prefix ++ slash ∷ index) ≡ index
unfolding last_index
last_index-prefix [] index h = rw h
last_index-prefix (c ∷ prefix) index h =
    ground (arith, has-slash prefix, last_index-prefix prefix index h)
  where
    has-slash : (p : Text) → has slash (p ++ slash ∷ index) ≡ true
    has-slash [] = refl
    has-slash (d ∷ p) = ground (arith, has-slash p)

module _ (prefix : Text) (n : ℕ) (no_star : has star prefix ≡ false) where
  pub build-prefix : build (pos n) (prefix ++ codes "/*") ≡ prefix ++ slash ∷ stamp n
  unfolding build
  build-prefix = rw (has-append_star prefix, replace_glob-prefix (stamp n) prefix no_star)

  -- The key that `Build` makes of a pattern `prefix/*`, with no special character in the prefix,
  -- at a time that an `int64` holds and that is not negative, matches the pattern, and its last
  -- part decodes to the time.
  pub build_lem :
      IsPlain prefix
      → n ≤ max_int64
      → (match (prefix ++ codes "/*") (build (pos n) (prefix ++ codes "/*")) ≡ true)
        × (decode (last_index (build (pos n) (prefix ++ codes "/*"))) ≡ pos n)
  build_lem plain h = rw build-prefix (
    (match_iff (prefix ++ codes "/*") (prefix ++ slash ∷ stamp n)
          (IsPlain-append prefix (codes "/*") plain (omega arith))).1
        (Glob-literal prefix no_star (
          same (omega arith) refl (Glob-star (stamp n) (stamp-has (stamp n) (stamp-IsDigit n)).1))),
    rw (last_index-prefix prefix (stamp n) (stamp-has (stamp n) (stamp-IsDigit n)).1)
        (decode-format_int n h),
  )
