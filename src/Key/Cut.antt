-- ===== src/Key/Cut.antt =====
-- How `scanChunk` cuts a pattern whose only special character is the star.
use ooo.Base.{
  ℕ, ◌≤◌, ◌≡◌, refl, ap, ◌≢◌, inl, inr, true, false, [], ◌∷◌, ◌++◌, Text, has, ◌==◌, arith, length,
  ==-false, if_same, length-append, sym, subst,
}
use native.Mathlib.Decide.{ℕ_discrete}
use ooo.Key.Path.{star, split_chunk, strip_stars}
use ooo.Key.Glob.{Glob, leave, Glob-two_stars}
use ooo.Key.Search.{IsPlain, IsPlainChar, IsRest}

abbrev pub chunk_of : Text → Text
chunk_of p = (split_chunk false false p).0

abbrev pub rest_of : Text → Text
rest_of p = (split_chunk false false p).1

split-star : (c : ℕ) (p : Text) → c ≡ star → split_chunk false false (c ∷ p) ≡ ([], c ∷ p)
unfolding split_chunk
split-star c p e = ground arith

split-char :
    (c : ℕ) (p : Text)
    → IsPlainChar c
    → c ≢ star
    → split_chunk false false (c ∷ p) ≡ (c ∷ chunk_of p, rest_of p)
unfolding split_chunk
split-char c p plain n =
    rw (==-false n, ==-false plain.0, ==-false plain.2, if_same (c == b']') false)

-- The chunk and the rest make up the pattern; there is no star in the chunk, and the rest is
-- empty or begins with one.
pub record IsCut (p chunk rest : Text) : Type 0 where
  pub whole : chunk ++ rest ≡ p
  pub no_star : has star chunk ≡ false
  pub at_star : IsRest rest
  pub chunk_plain : IsPlain chunk
  pub rest_plain : IsPlain rest

pub split-IsCut : (p : Text) → IsPlain p → IsCut p (chunk_of p) (rest_of p)
split-IsCut [] h =
    unfold split_chunk in
    record { whole = refl; no_star = refl; at_star = inl refl; chunk_plain = tt; rest_plain = tt }
split-IsCut (c ∷ p) h = elim (ℕ_discrete c star) [
  | yes e ↦
      subst (λ x. IsCut (c ∷ p) x.0 x.1) (sym (split-star c p e))
        (record {
          whole = refl;
          no_star = refl;
          at_star = inr (p, ap (λ x. x ∷ p) e);
          chunk_plain = tt;
          rest_plain = h;
        })
  | no n ↦
      let rest = split-IsCut p h.1 in
      subst (λ x. IsCut (c ∷ p) x.0 x.1) (sym (split-char c p h.0 n))
        (record {
          whole = ap (λ x. c ∷ x) rest.whole;
          no_star = ground (arith, rest.no_star);
          at_star = rest.at_star;
          chunk_plain = (h.0, rest.chunk_plain);
          rest_plain = rest.rest_plain;
        })
]

abbrev pub after_stars : Text → Text
after_stars p = (strip_stars p).1

pub strip-star : (c : ℕ) (p : Text) → c ≡ star → strip_stars (c ∷ p) ≡ (true, after_stars p)
unfolding strip_stars
strip-star c p e = ground arith

pub strip-char : (c : ℕ) (p : Text) → c ≢ star → strip_stars (c ∷ p) ≡ (false, c ∷ p)
unfolding strip_stars
strip-char c p n = ground arith

pub length-after_stars-le : (p : Text) → length (after_stars p) ≤ length p
unfolding strip_stars
length-after_stars-le [] = omega arith
length-after_stars-le (c ∷ p) = ground (arith, length-after_stars-le p)

pub after_stars-ne-star : (p r : Text) → after_stars p ≢ star ∷ r
unfolding strip_stars
after_stars-ne-star [] r e = cc
after_stars-ne-star (c ∷ p) r e = ground (arith, after_stars-ne-star p r)

pub after_stars-IsPlain : (p : Text) → IsPlain p → IsPlain (after_stars p)
after_stars-IsPlain [] h = unfold strip_stars in tt
after_stars-IsPlain (c ∷ p) h = elim (ℕ_discrete c star) [
  | yes e ↦ subst (λ x. IsPlain x.1) (sym (strip-star c p e)) (after_stars-IsPlain p h.1)
  | no n ↦ subst (λ x. IsPlain x.1) (sym (strip-char c p n)) h
]

-- Leading stars are worth one star.
pub one_star :
    (c : ℕ) (p : Text) {s : Text} → c ≡ star → Glob (c ∷ p) s → Glob (star ∷ after_stars p) s
one_star c [] {s} e g = unfold strip_stars in subst (λ x. Glob (x ∷ []) s) e g
one_star c (d ∷ p) {s} e g = elim (ℕ_discrete d star) [
  | yes e' ↦
      subst (λ x. Glob (star ∷ x.1) s) (sym (strip-star d p e'))
        (one_star d p e' (
          subst (λ x. Glob (x ∷ p) s) (sym e')
            (Glob-two_stars (subst (λ x. Glob (x ∷ d ∷ p) s) e g) e')))
  | no n ↦
      subst (λ x. Glob (star ∷ x.1) s) (sym (strip-char d p n))
        (subst (λ x. Glob (x ∷ d ∷ p) s) e g)
]

pub all_stars :
    (c : ℕ) (p : Text) {s : Text} → c ≡ star → Glob (star ∷ after_stars p) s → Glob (c ∷ p) s
all_stars c [] {s} e g = subst (λ x. Glob (x ∷ []) s) (sym e) (unfold strip_stars in g)
all_stars c (d ∷ p) {s} e g = elim (ℕ_discrete d star) [
  | yes e' ↦ leave e (all_stars d p e' (subst (λ x. Glob (star ∷ x.1) s) (strip-star d p e') g))
  | no n ↦
      subst (λ x. Glob (x ∷ d ∷ p) s) (sym e)
        (subst (λ x. Glob (star ∷ x.1) s) (strip-char d p n) g)
]

pub length-rest_of-le : (q : Text) → IsPlain q → length (rest_of q) ≤ length q
length-rest_of-le q h =
    omega (arith, ap length (split-IsCut q h).whole, length-append (chunk_of q) (rest_of q))

-- A round of the loop uses up a character.
pub round_shorter :
    (c : ℕ) (p : Text) → IsPlain (c ∷ p) → length (rest_of (after_stars (c ∷ p))) ≤ length p
round_shorter c p h = elim (ℕ_discrete c star) [
  | yes e ↦
      subst (λ x. length (rest_of x.1) ≤ length p) (sym (strip-star c p e))
        (omega (
          arith,
          length-rest_of-le (after_stars p) (after_stars-IsPlain p h.1),
          length-after_stars-le p,
        ))
  | no n ↦
      subst (λ x. length (rest_of x.1) ≤ length p) (sym (strip-char c p n))
        (subst (λ x. length x.1 ≤ length p) (sym (split-char c p h.0 n)) (length-rest_of-le p h.1))
]
