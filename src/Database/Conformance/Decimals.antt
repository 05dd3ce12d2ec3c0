-- ===== src/Database/Conformance/Decimals.antt =====
-- The decimal digits that Go's strconv.Itoa writes, and so the numbered keys of storageTest.go, name their
-- numbers.
use ooo.Base.{
  ℕ, zero, suc, ◌+◌, ◌-◌, ◌*◌, ◌/◌, ◌%◌, ◌<◌, [], ◌∷◌, Text, text_eq, text_eq_iff, itoa,
  decimal_digits, ltb, false, ◌≡◌, ◌≢◌, refl, ◌∙◌, sym, ap, arith, if◌then◌else◌, Bool-cases, inl,
  inr, drop,
}
use ooo.Database.Conformance.Numbered.{numbered}

-- The number that decimal digits stand for, behind those that stand for `acc`.
abbrev pub digits_value : ℕ → Text → ℕ
digits_value acc [] = acc
digits_value acc (c ∷ s) = digits_value (acc * 10 + (c - b'0')) s

abbrev pub ten_to : ℕ → ℕ
ten_to zero = 1
ten_to (suc f) = 10 * ten_to f

decimal_digits-value :
    (f n : ℕ) (acc : Text)
    → n < ten_to f
    → digits_value 0 (decimal_digits f n acc) ≡ digits_value n acc
unfolding decimal_digits
decimal_digits-value zero n acc h = rw (digits_same n h) refl
  where
    digits_same : (n : ℕ) → n < 1 → n ≡ 0
    digits_same n h = omega arith
decimal_digits-value (suc f) n acc h = elim (Bool-cases (ltb n 10)) [
  | inl e ↦ rw (e, if◌then◌else◌) (ap (λ m. digits_value m acc) (omega arith))
  | inr e ↦
      rw (e, if◌then◌else◌)
        (decimal_digits-value f (n / 10) ((b'0' + n % 10) ∷ acc) (omega (arith, h))
          ∙ ap (λ m. digits_value m acc) (omega arith))
]

-- The digits of every `int64` that is not negative are all written.
pub itoa-value : (n : ℕ) → n < ten_to 19 → digits_value 0 (itoa n) ≡ n
unfolding itoa
itoa-value n h = decimal_digits-value 19 n [] h

-- Two numbers have two keys.
pub numbered-injective :
    (i j : ℕ) → i < ten_to 19 → j < ten_to 19 → i ≢ j → text_eq (numbered i) (numbered j) ≡ false
numbered-injective i j hi hj n = elim (Bool-cases (text_eq (numbered i) (numbered j))) [
  | inr e ↦ e
  | inl e ↦
      let same : itoa i ≡ itoa j = ap (drop 5) ((text_eq_iff (numbered i) (numbered j)).0 e) in
      absurd (n (sym (itoa-value i hi) ∙ ap (digits_value 0) same ∙ itoa-value j hj))
]
