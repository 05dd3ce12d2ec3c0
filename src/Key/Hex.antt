-- ===== src/Key/Hex.antt =====
-- Go's `strconv.FormatInt(n, 16)` and `strconv.ParseInt(s, 16, 64)`, which key/key.go, ws.go and
-- stream/stream.go call on times.
use ooo.Base.{
  ℕ, zero, suc, ◌+◌, ◌-◌, ◌*◌, ◌/◌, ◌%◌, ◌^◌, ◌&&◌, Option, none, some, [], ◌∷◌, Text, ltb, leb,
  ◌==◌, if◌then◌else◌, ℤ, pos, negsuc,
}

abbrev pub max_int64 : ℕ
max_int64 = 2 ^ 63 - 1

unfoldable pub hex_digit : ℕ → ℕ
hex_digit d = if ltb d 10 then d + b'0' else d - 10 + b'a'

-- The digits of `n` in front of those in `acc`, as `formatBits` writes them, from the right.
unfoldable pub hex_digits : ℕ → ℕ → Text → Text
hex_digits zero n acc = acc
hex_digits (suc f) n acc =
    let more = hex_digits f (n / 16) (hex_digit (n % 16) ∷ acc) in
    if ltb n 16 then hex_digit n ∷ acc else more

-- Sixteen digits hold every `int64`.
unfoldable pub format_int : ℤ → Text
unfolding hex_digits hex_digit
format_int (pos n) = hex_digits 16 n []
format_int (negsuc n) = b'-' ∷ hex_digits 16 (suc n) []

unfoldable pub digit_value : ℕ → Option ℕ
digit_value c =
    if leb b'0' c && leb c b'9'
    then some (c - b'0')
    else if leb b'a' c && leb c b'f'
    then some (c - b'a' + 10)
    else if leb b'A' c && leb c b'F'
    then some (c - b'A' + 10)
    else none

unfoldable pub parse_digits : ℕ → Text → Option ℕ
parse_digits n [] = some n
parse_digits n (c ∷ s) = elim (digit_value c) [ none ↦ none | some d ↦ parse_digits (n * 16 + d) s ]

unfoldable pub parse_unsigned : Text → Option ℕ
parse_unsigned [] = none
parse_unsigned (c ∷ s) = parse_digits 0 (c ∷ s)

unfoldable pub negative : ℕ → ℤ
negative zero = pos 0
negative (suc n) = negsuc n

-- The range tests on a number with and without a minus sign.
abbrev pub negated : Option ℕ → Option ℤ
negated none = none
negated (some n) = if leb n (max_int64 + 1) then some (negative n) else none

abbrev pub unsigned : Option ℕ → Option ℤ
unsigned none = none
unsigned (some n) = if leb n max_int64 then some (pos n) else none

-- `none` is a syntax or a range error.
unfoldable pub parse_int : Text → Option ℤ
unfolding parse_unsigned parse_digits digit_value negative
parse_int [] = none
parse_int (c ∷ s) =
    if c == b'-'
    then negated (parse_unsigned s)
    else unsigned (parse_unsigned (if c == b'+' then s else c ∷ s))
