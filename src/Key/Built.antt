-- ===== src/Key/Built.antt =====
-- The keys that `Build` of key/key.go makes of valid patterns are valid.
use ooo.Base.{
  ℕ, true, false, [], ◌∷◌, ◌++◌, Text, has, has_pair, ◌≡◌, refl, ◌≢◌, sym, subst, inl, inr, arith,
  All, codes, length-append, pos,
}
use ooo.Key.{is_word, is_valid, build}
use ooo.Key.Path.{star, slash}
use ooo.Key.Stamp.{IsDigit, stamp, stamp-IsDigit, stamp-has, stamp-ne-nil, build-prefix}
use ooo.Key.Matching.{IsKey, IsKeyChar, last_or, is_valid_iff}

All-left : (P : ℕ → Type 0) (p q : Text) → All P (p ++ q) → All P p
All-left P [] q h = tt
All-left P (c ∷ p) q h = (h.0, All-left P p q h.1)

All-join : (P : ℕ → Type 0) (p q : Text) → All P p → All P q → All P (p ++ q)
All-join P [] q h k = k
All-join P (c ∷ p) q h k = (h.0, All-join P p q h.1 k)

has_pair-none : (c : ℕ) (s : Text) → has c s ≡ false → has_pair c s ≡ false
has_pair-none c [] h = refl
has_pair-none c (a ∷ []) h = refl
has_pair-none c (a ∷ b ∷ s) h = ground (arith, has_pair-none c (b ∷ s))

has-join : (c : ℕ) (p q : Text) → has c p ≡ false → has c q ≡ false → has c (p ++ q) ≡ false
has-join c [] q h k = k
has-join c (a ∷ p) q h k = ground (arith, has-join c p q)

last_or-join : (d c : ℕ) (p q : Text) → last_or d (p ++ c ∷ q) ≡ last_or c q
last_or-join d c [] q = refl
last_or-join d c (a ∷ p) q = last_or-join a c p q

has_pair-cons : (w : Text) → has slash w ≡ false → has_pair slash (slash ∷ w) ≡ false
has_pair-cons [] h = refl
has_pair-cons (c ∷ w) h = ground (arith, has_pair-none slash (c ∷ w) h)

no_slashes_end :
    (w p : Text)
    → has slash w ≡ false
    → has_pair slash (p ++ slash ∷ star ∷ []) ≡ false
    → has_pair slash (p ++ slash ∷ w) ≡ false
no_slashes_end w [] n h = has_pair-cons w n
no_slashes_end w (a ∷ []) n h = ground (arith, no_slashes_end w [] n refl)
no_slashes_end w (a ∷ b ∷ p) n h = ground (arith, no_slashes_end w (b ∷ p) n)

digits-IsKeyChar : (w : Text) → All IsDigit w → All IsKeyChar w
digits-IsKeyChar [] h = tt
digits-IsKeyChar (c ∷ w) h = (inl h.0.4, digits-IsKeyChar w h.1)

digits-last : (c : ℕ) (w : Text) → is_word c ≡ true → All IsDigit w → is_word (last_or c w) ≡ true
digits-last c [] h k = h
digits-last c (d ∷ w) h k = digits-last d w k.0.4 k.1

-- A star at the end of a valid key, after a slash, may be replaced by digits.
pub digits-IsKey :
    (p w : Text)
    → has star p ≡ false
    → w ≢ []
    → All IsDigit w
    → IsKey (p ++ slash ∷ star ∷ [])
    → IsKey (p ++ slash ∷ w)
digits-IsKey [] w s n d k = absurd (unfold is_word in ground (arith, k.starts))
digits-IsKey (a ∷ p) [] s n d k = absurd (n refl)
digits-IsKey (a ∷ p) (c ∷ w) s n d k = record {
  chars =
      All-join IsKeyChar (a ∷ p) (slash ∷ c ∷ w)
        (All-left IsKeyChar (a ∷ p) (slash ∷ star ∷ []) k.chars)
        (inr refl, digits-IsKeyChar (c ∷ w) d);
  starts = k.starts;
  ends =
      subst (λ x. is_word x ≡ true) (sym (last_or-join a slash p (c ∷ w)))
        (digits-last c w d.0.4 d.1);
  not_two = λ e. omega (arith, e, length-append p (slash ∷ c ∷ w));
  no_slashes = no_slashes_end (c ∷ w) (a ∷ p) (stamp-has (c ∷ w) d).1 k.no_slashes;
  no_stars =
      has_pair-none star ((a ∷ p) ++ slash ∷ c ∷ w)
        (has-join star (a ∷ p) (slash ∷ c ∷ w) s (stamp-has (c ∷ w) d).0);
}

-- `Build` makes a valid key without a star of a valid pattern `prefix/*` with no star in the
-- prefix.
pub build-is_valid :
    (prefix : Text) (n : ℕ)
    → has star prefix ≡ false
    → is_valid (prefix ++ codes "/*") ≡ true
    → (is_valid (build (pos n) (prefix ++ codes "/*")) ≡ true)
      × (has star (build (pos n) (prefix ++ codes "/*")) ≡ false)
build-is_valid prefix n s h = rw (build-prefix prefix n s) (
  (is_valid_iff _).1
      (digits-IsKey prefix (stamp n) s (stamp-ne-nil n) (stamp-IsDigit n) ((is_valid_iff _).0 h)),
  has-join star prefix (slash ∷ stamp n) s (stamp-has (stamp n) (stamp-IsDigit n)).0,
)
