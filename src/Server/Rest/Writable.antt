-- ===== src/Server/Rest/Writable.antt =====
-- Which keys rest.go lets a request write.
use ooo.Base.{
  ℕ, suc, true, false, [], ◌∷◌, ◌++◌, none, some, Text, ◌≡◌, refl, ◌≢◌, ap, subst, sym, ◌⊎◌, ◌↔◌,
  inl, inr, arith, Option-cases, count, has, has-count, index_of, length, count-append,
  length-append,
}
use ooo.Key.{is_valid}
use ooo.Key.Path.{star}
use ooo.Key.Matching.{IsKey, is_valid_iff}
use ooo.Server.Rest.{is_writable}

index_of-suc :
    (c : ℕ) (s : Text) (k : ℕ)
    → index_of c s ≡ some k
    → suc k ≡ length s
    → (p : Text) × (s ≡ p ++ c ∷ []) × (has c p ≡ false)
index_of-suc c [] k h e = absurd (ground arith)
index_of-suc c (a ∷ []) k h e = ([], ground arith, refl)
index_of-suc c (a ∷ b ∷ s) k h e = elim (Option-cases (index_of c (b ∷ s))) [
  | inl g ↦ absurd (ground arith)
  | inr (k', g) ↦
      let (p, q, r) = index_of-suc c (b ∷ s) k' g (ground arith) in
      (a ∷ p, ap (λ x. a ∷ x) q, ground arith)
]

index_of-append : (c : ℕ) (p : Text) → has c p ≡ false → index_of c (p ++ c ∷ []) ≡ some (length p)
index_of-append c [] h = ground arith
index_of-append c (a ∷ p) h = ground (arith, index_of-append c p)

index_of-none : (c : ℕ) (s : Text) → index_of c s ≡ none → has c s ≡ false
index_of-none c [] h = refl
index_of-none c (a ∷ s) h = elim (Option-cases (index_of c s)) [
  | inl g ↦ ground (arith, index_of-none c s g)
  | inr (k, g) ↦ absurd (ground arith)
]

index_of-some : (c : ℕ) (s : Text) (k : ℕ) → index_of c s ≡ some k → count c s ≢ 0
index_of-some c [] k h = absurd (ground arith)
index_of-some c (a ∷ s) k h = elim (Option-cases (index_of c s)) [
  | inl g ↦ ground arith
  | inr (j, g) ↦ ground (arith, index_of-some c s j g)
]

length-star : (p : Text) → length (p ++ star ∷ []) ≡ suc (length p)
length-star p = omega (arith, length-append p (star ∷ []))

-- The keys that a request may write are the valid keys without a star and those with one star, at
-- the end.
is_writable_iff :
    (key : Text)
    → (is_writable key ≡ true) ↔ (
        IsKey key
        × ((has star key ≡ false) ⊎ ((p : Text) × (key ≡ p ++ star ∷ []) × (has star p ≡ false))))
unfolding is_writable
is_writable_iff key = (
  λ h. (
    (is_valid_iff key).0 (ground arith),
    elim (Option-cases (index_of star key)) [
      | inl e ↦ inl (index_of-none star key e)
      | inr (k, e) ↦ inr (index_of-suc star key k e (ground (arith, index_of-some star key k e)))
    ],
  ),
  λ (v, w). elim w [
    | inl n ↦ ground (arith, (is_valid_iff key).1 v, (has-count star key).0 n)
    | inr (p, e, n) ↦
        subst (λ x. is_valid x ≡ true → is_writable x ≡ true) (sym e)
          (λ u. ground (
            arith,
            u,
            count-append star p (star ∷ []),
            (has-count star p).0 n,
            index_of-append star p n,
            length-star p,
          ))
          ((is_valid_iff key).1 v)
  ],
)
