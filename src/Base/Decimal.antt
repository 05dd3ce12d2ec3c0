-- ===== src/Base/Decimal.antt =====
-- Go's `strconv.Itoa` of a number that is not negative.
use Prim.Native.Nat.{ℕ, zero, suc, ◌+◌, ◌/◌, ◌%◌}
use mathlib.Core.List.{[], ◌∷◌}
use ooo.Base.Tests.{ltb, if◌then◌else◌}
use ooo.Base.Strings.{Text}

-- The digits of `n` in front of those in `acc`, from the right.
unfoldable pub decimal_digits : ℕ → ℕ → Text → Text
decimal_digits zero n acc = acc
decimal_digits (suc f) n acc =
    let more = decimal_digits f (n / 10) ((b'0' + n % 10) ∷ acc) in
    if ltb n 10 then (b'0' + n) ∷ acc else more

-- Nineteen digits hold every `int`.
unfoldable pub itoa : ℕ → Text
unfolding decimal_digits
itoa n = decimal_digits 19 n []
