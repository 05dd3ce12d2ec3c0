-- ===== src/Key/Glob.antt =====
-- What it means for a key to match a pattern of `key.Match` (key/key.go), with no search order in
-- it: a star stands for any run of characters without a slash, any other character for itself.
use ooo.Base.{
  ℕ, ◌≡◌, refl, subst, ◌∙◌, ◌≢◌, inl, inr, Bool-cases, false, [], ◌∷◌, ◌++◌, Text, count, has, ◌==◌,
  arith,
}
use ooo.Key.Path.{star, slash}

pub data Glob : Text → Text → Type 0 where
  done : Glob [] []
  same : {c d : ℕ} {p s : Text} → c ≢ star → c ≡ d → Glob p s → Glob (c ∷ p) (d ∷ s)
  leave : {c : ℕ} {p s : Text} → c ≡ star → Glob p s → Glob (c ∷ p) s
  take : {c d : ℕ} {p s : Text} → c ≡ star → d ≢ slash → Glob (c ∷ p) s → Glob (c ∷ p) (d ∷ s)

-- A star may take any more characters that are no slashes.
pub Glob-prepend :
    (w : Text) {r t : Text} → count slash w ≡ 0 → Glob (star ∷ r) t → Glob (star ∷ r) (w ++ t)
Glob-prepend [] h g = g
Glob-prepend (c ∷ w) h g = take refl (ground arith) (Glob-prepend w (ground arith) g)

pub Glob-two_stars : {c : ℕ} {q s : Text} → Glob (star ∷ c ∷ q) s → c ≡ star → Glob (star ∷ q) s
Glob-two_stars (same n e g) h = absurd (n refl)
Glob-two_stars {q} {s} (leave e g) h = subst (λ x. Glob (x ∷ q) s) h g
Glob-two_stars (take e n g) h = take refl n (Glob-two_stars g h)

-- A text without stars matches itself, in front of what follows.
pub Glob-literal :
    (l : Text) {rest t : Text} → has star l ≡ false → Glob rest t → Glob (l ++ rest) (l ++ t)
Glob-literal [] h g = g
Glob-literal (c ∷ l) h g = same (ground arith) refl (Glob-literal l (ground arith) g)

pub Glob-literal_inv :
    (l : Text) {rest s : Text}
    → has star l ≡ false
    → Glob (l ++ rest) s
    → (t : Text) × (s ≡ l ++ t) × Glob rest t
Glob-literal_inv [] {rest} {s} h g = (s, refl, g)
Glob-literal_inv (c ∷ l) h (same {s = s} n e g) =
    let (t, q, g') = Glob-literal_inv l (ground arith) g in (t, cc, g')
Glob-literal_inv (c ∷ l) h (leave e g) = absurd (ground arith)
Glob-literal_inv (c ∷ l) h (take e n g) = absurd (ground arith)

pub Glob-nil_inv : {s : Text} → Glob [] s → s ≡ []
Glob-nil_inv done = refl

pub Glob-star_inv : {c : ℕ} {s : Text} → Glob (c ∷ []) s → c ≡ star → has slash s ≡ false
Glob-star_inv (same n e g) h = absurd (n h)
Glob-star_inv (leave e done) h = refl
Glob-star_inv (take e n g) h = ground (arith, Glob-star_inv g h)

pub Glob-star : (s : Text) → has slash s ≡ false → Glob (star ∷ []) s
Glob-star [] h = leave refl done
Glob-star (c ∷ s) h = take refl (ground arith) (Glob-star s (ground arith))

-- A pattern and the keys that match it have as many slashes.
pub Glob-count : {p s : Text} → Glob p s → count slash p ≡ count slash s
Glob-count done = refl
Glob-count (same n e g) = ground (arith, Glob-count g)
Glob-count (leave e g) = ground (arith, Glob-count g)
Glob-count (take e n g) = ground (arith, Glob-count g)

-- A pattern matches itself.
pub Glob-refl : (p : Text) → Glob p p
Glob-refl [] = done
Glob-refl (c ∷ p) = elim (Bool-cases (c == star)) [
  | inl e ↦ take (ground arith) (ground arith) (leave (ground arith) (Glob-refl p))
  | inr n ↦ same (ground arith) refl (Glob-refl p)
]

-- What matches a pattern that matches another one matches the other one.
pub Glob-trans : {p q s : Text} → Glob p q → Glob q s → Glob p s
Glob-trans done done = done
Glob-trans (leave e g) h = leave e (Glob-trans g h)
Glob-trans (same n e g) (same n' e' h) = same n (e ∙ e') (Glob-trans g h)
Glob-trans (same n e g) (leave e' h) = absurd (n (e ∙ e'))
Glob-trans (same n e g) (take e' n' h) = absurd (n (e ∙ e'))
Glob-trans (take e n g) (same n' e' h) = take e (ground arith) (Glob-trans g h)
Glob-trans (take e n g) (leave e' h) = Glob-trans g h
Glob-trans (take e n g) (take e' n' h) = take e n' (Glob-trans (take e n g) h)
