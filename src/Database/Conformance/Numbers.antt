-- ===== src/Database/Conformance/Numbers.antt =====
-- The numbered keys of the tests of storageTest.go.
use ooo.Base.{
  ℕ, zero, suc, ◌+◌, ◌<◌, ◌/◌, ◌%◌, true, false, [], ◌∷◌, Text, codes, has, All, itoa,
  decimal_digits, ltb, ◌≡◌, ◌≢◌, refl, arith, if◌then◌else◌, Bool-cases, inl, inr,
}
use ooo.Key.{glob_regex, is_word, ends_in_word, is_valid, match, last_index}
use ooo.Key.Path.{star}
use ooo.Key.Glob.{Glob-literal, Glob-star}
use ooo.Key.Matching.{match_iff, is_valid_iff}
use ooo.Key.Stamp.{IsDigit, stamp-has, last_index-prefix}
use ooo.Key.Built.{digits-IsKey}
use ooo.Database.Conformance.Numbered.{numbered}

decimal_digits-IsDigit :
    (f n : ℕ) (acc : Text) → All IsDigit acc → All IsDigit (decimal_digits f n acc)
unfolding decimal_digits
decimal_digits-IsDigit zero n acc h = h
decimal_digits-IsDigit (suc f) n acc h = elim (Bool-cases (ltb n 10)) [
  | inl e ↦ rw (e, if◌then◌else◌) (digit n (ground arith), h)
  | inr e ↦
      rw (e, if◌then◌else◌)
        (decimal_digits-IsDigit f (n / 10) ((b'0' + n % 10) ∷ acc)
          (digit (n % 10) (omega arith), h))
]
  where
    digit : (d : ℕ) → d < 10 → IsDigit (b'0' + d)
    digit d h = unfold is_word in ground arith

decimal_digits-ne-nil : (f n : ℕ) (acc : Text) → acc ≢ [] → decimal_digits f n acc ≢ []
unfolding decimal_digits
decimal_digits-ne-nil zero n acc h = h
decimal_digits-ne-nil (suc f) n acc h =
    ground (arith, decimal_digits-ne-nil f (n / 10) ((b'0' + n % 10) ∷ acc))

itoa-IsDigit : (n : ℕ) → All IsDigit (itoa n)
unfolding itoa
itoa-IsDigit n = decimal_digits-IsDigit 19 n [] tt

itoa-ne-nil : (n : ℕ) → itoa n ≢ []
unfolding itoa decimal_digits
itoa-ne-nil n = ground (arith, decimal_digits-ne-nil 18 (n / 10) ((b'0' + n % 10) ∷ []) (λ e. cc))

module _ (i : ℕ) where
  pub numbered-has-star : has star (numbered i) ≡ false
  numbered-has-star = (stamp-has (itoa i) (itoa-IsDigit i)).0

  pub numbered-is_valid : is_valid (numbered i) ≡ true
  numbered-is_valid = (is_valid_iff (numbered i)).1 (
      digits-IsKey (codes "test") (itoa i) refl (itoa-ne-nil i) (itoa-IsDigit i) (
        (is_valid_iff (codes "test/*")).0
          (unfold is_valid glob_regex is_word ends_in_word in refl)))

  pub numbered-last_index : last_index (numbered i) ≡ itoa i
  numbered-last_index =
      last_index-prefix (codes "test") (itoa i) (stamp-has (itoa i) (itoa-IsDigit i)).1

  pub numbered-match : match (codes "test/*") (numbered i) ≡ true
  numbered-match = (match_iff (codes "test/*") (numbered i) (omega arith)).1 (
      Glob-literal (codes "test/") refl
        (Glob-star (itoa i) (stamp-has (itoa i) (itoa-IsDigit i)).1))
