-- ===== src/Memory/Sorted.antt =====
-- The sorting of the objects that memory.go reads by their creation time (meta/objects.go): the
-- order, and that the objects stay the same.
use ooo.Base.{
  ℕ, Bool, true, false, List, [], ◌∷◌, ◌≡◌, ◌≢◌, refl, ◌∙◌, sym, ap, subst, ◌⊎◌, inl, inr, ◌↔◌,
  if◌then◌else◌, arith, Bool-cases, length, take, ltb, All, take_of_length-le, All-map, ◌≤ℤ◌,
}
use ooo.Meta.{Object, sort, sort_onto, insert, sort_asc, sort_desc}

module _ (less : Object → Object → Bool) where
  -- Nothing later is to come before something earlier.
  abbrev pub IsSorted : List Object → Type 0
  IsSorted [] = Unit
  IsSorted (x ∷ xs) = All (λ y. less y x ≡ false) xs × IsSorted xs

  All-insert :
      (P : Object → Type 0) (x : Object) (xs : List Object)
      → P x
      → All P xs
      → All P (insert less x xs)
  unfolding insert
  All-insert P x [] p h = (p, tt)
  All-insert P x (y ∷ ys) p h = elim (Bool-cases (less x y)) [
    | inl e ↦ rw (e, if◌then◌else◌) (p, h)
    | inr e ↦ rw (e, if◌then◌else◌) (h.0, All-insert P x ys p h.1)
  ]

  -- The order is one of times: what is not after a later one is not after an earlier one.
  module _ (asym : (a b : Object) → less a b ≡ true → less b a ≡ false)
      (trans : (a b c : Object) → less b a ≡ false → less c b ≡ false → less c a ≡ false) where
    insert-IsSorted : (x : Object) (xs : List Object) → IsSorted xs → IsSorted (insert less x xs)
    unfolding insert
    insert-IsSorted x [] h = (tt, tt)
    insert-IsSorted x (y ∷ ys) h = elim (Bool-cases (less x y)) [
      | inl e ↦
          let first = asym x y e in
          rw (e, if◌then◌else◌)
            (
              (
                first,
                All-map (λ z. less z y ≡ false) (λ z. less z x ≡ false) (λ z k. trans x y z first k)
                    ys h.0,
              ),
              h,
            )
      | inr e ↦
          rw (e, if◌then◌else◌)
            (All-insert (λ z. less z y ≡ false) x ys e h.0, insert-IsSorted x ys h.1)
    ]

    sort_onto-IsSorted :
        (sorted xs : List Object) → IsSorted sorted → IsSorted (sort_onto less sorted xs)
    unfolding sort_onto
    sort_onto-IsSorted sorted [] h = h
    sort_onto-IsSorted sorted (x ∷ xs) h =
        sort_onto-IsSorted (insert less x sorted) xs (insert-IsSorted x sorted h)

    pub sort-IsSorted : (xs : List Object) → IsSorted (sort less xs)
    unfolding sort
    sort-IsSorted xs = sort_onto-IsSorted [] xs tt

-- The two orders of meta/objects.go are orders.
pub data Order : (Object → Object → Bool) → Type 0 where
  ascending : Order sort_asc
  descending : Order sort_desc

pub Order-asym :
    {less : Object → Object → Bool}
    → Order less
    → (a b : Object) → less a b ≡ true
    → less b a ≡ false
Order-asym ascending a b h = ground arith
Order-asym descending a b h = ground arith

pub Order-trans :
    {less : Object → Object → Bool}
    → Order less
    → (a b c : Object) → less b a ≡ false
    → less c b ≡ false
    → less c a ≡ false
Order-trans ascending a b c h k = ground arith
Order-trans descending a b c h k = ground arith

pub cut-take : (n : ℕ) (l : List Object) → (if ltb n (length l) then take n l else l) ≡ take n l
cut-take n l = elim (Bool-cases (ltb n (length l))) [
  | inl e ↦ rw e
  | inr e ↦ rw e (sym (take_of_length-le n l (ground arith)))
]

abbrev pub IsIn : Object → List Object → Type 0
IsIn o [] = ⊥
IsIn o (x ∷ xs) = (o ≡ x) ⊎ IsIn o xs

-- No two have the same path.
abbrev pub AreDistinct : List Object → Type 0
AreDistinct [] = Unit
AreDistinct (x ∷ xs) = All (λ y. x.path ≢ y.path) xs × AreDistinct xs

-- In the order of creation.
abbrev pub IsOldestFirst : List Object → Type 0
IsOldestFirst [] = Unit
IsOldestFirst (x ∷ xs) = All (λ y. x.created ≤ℤ y.created) xs × IsOldestFirst xs

abbrev pub IsNewestFirst : List Object → Type 0
IsNewestFirst [] = Unit
IsNewestFirst (x ∷ xs) = All (λ y. y.created ≤ℤ x.created) xs × IsNewestFirst xs

pub IsSorted-IsOldestFirst : (l : List Object) → IsSorted sort_asc l → IsOldestFirst l
IsSorted-IsOldestFirst [] h = tt
IsSorted-IsOldestFirst (x ∷ xs) h = (
  All-map (λ y. sort_asc y x ≡ false) (λ y. x.created ≤ℤ y.created) (λ y e. ground arith) xs h.0,
  IsSorted-IsOldestFirst xs h.1,
)

pub IsSorted-IsNewestFirst : (l : List Object) → IsSorted sort_desc l → IsNewestFirst l
IsSorted-IsNewestFirst [] h = tt
IsSorted-IsNewestFirst (x ∷ xs) h = (
  All-map (λ y. sort_desc y x ≡ false) (λ y. y.created ≤ℤ x.created) (λ y e. ground arith) xs h.0,
  IsSorted-IsNewestFirst xs h.1,
)

pub All-IsIn : (P : Object → Type 0) (l : List Object) → ((y : Object) → IsIn y l → P y) → All P l
All-IsIn P [] h = tt
All-IsIn P (x ∷ xs) h = (h x (inl refl), All-IsIn P xs (λ y i. h y (inr i)))

IsIn-All : (P : Object → Type 0) (l : List Object) (y : Object) → All P l → IsIn y l → P y
IsIn-All P [] y h i = absurd i
IsIn-All P (x ∷ xs) y h (inl e) = subst P (sym e) h.0
IsIn-All P (x ∷ xs) y h (inr i) = IsIn-All P xs y h.1 i

-- Sorting keeps what is in a list, and that no path is there twice.
module _ (less : Object → Object → Bool) where
  IsIn-insert : (o x : Object) (xs : List Object) → IsIn o (insert less x xs) ↔ IsIn o (x ∷ xs)
  unfolding insert
  IsIn-insert o x [] = (λ i. i, λ i. i)
  IsIn-insert o x (y ∷ ys) = elim (Bool-cases (less x y)) [
    | inl e ↦ rw (e, if◌then◌else◌) (λ i. i, λ i. i)
    | inr e ↦
        let (to, from) = IsIn-insert o x ys in rw (e, if◌then◌else◌) (ground arith, ground arith)
  ]

  AreDistinct-insert :
      (x : Object) (xs : List Object)
      → All (λ y. x.path ≢ y.path) xs
      → AreDistinct xs
      → AreDistinct (insert less x xs)
  unfolding insert
  AreDistinct-insert x [] h d = (tt, tt)
  AreDistinct-insert x (y ∷ ys) h d = elim (Bool-cases (less x y)) [
    | inl e ↦ rw (e, if◌then◌else◌) (h, d)
    | inr e ↦
        rw (e, if◌then◌else◌)
          (
            All-IsIn (λ z. y.path ≢ z.path) (insert less x ys)
                (λ z i. elim ((IsIn-insert z x ys).0 i) [
                  | inl s ↦ λ p. h.0 (sym (p ∙ ap (λ t. t.path) s))
                  | inr j ↦ IsIn-All (λ t. y.path ≢ t.path) ys z d.0 j
                ]),
            AreDistinct-insert x ys h.1 d.1,
          )
  ]

  IsIn-sort_onto :
      (o : Object) (sorted xs : List Object)
      → IsIn o (sort_onto less sorted xs) ↔ (IsIn o xs ⊎ IsIn o sorted)
  unfolding sort_onto
  IsIn-sort_onto o sorted [] = (λ i. inr i, λ i. ground arith)
  IsIn-sort_onto o sorted (x ∷ xs) =
      let (to, from) = IsIn-sort_onto o (insert less x sorted) xs in
      let (out, into) = IsIn-insert o x sorted in (ground arith, ground arith)

  AreDistinct-sort_onto :
      (sorted xs : List Object)
      → ((y z : Object) → IsIn y xs → IsIn z sorted → y.path ≢ z.path)
      → AreDistinct sorted
      → AreDistinct xs
      → AreDistinct (sort_onto less sorted xs)
  unfolding sort_onto
  AreDistinct-sort_onto sorted [] apart d e = d
  AreDistinct-sort_onto sorted (x ∷ xs) apart d e =
      AreDistinct-sort_onto (insert less x sorted) xs
        (λ y z i j. elim ((IsIn-insert z x sorted).0 j) [
          | inl s ↦ λ p. IsIn-All (λ t. x.path ≢ t.path) xs y e.0 i (sym (p ∙ ap (λ t. t.path) s))
          | inr k ↦ apart y z (inr i) k
        ])
        (AreDistinct-insert x sorted
          (All-IsIn (λ y. x.path ≢ y.path) sorted (λ y i. apart x y (inl refl) i)) d)
        e.1

  pub IsIn-sort : (o : Object) (xs : List Object) → IsIn o (sort less xs) ↔ IsIn o xs
  unfolding sort
  IsIn-sort o xs = let (to, from) = IsIn-sort_onto o [] xs in (ground arith, λ i. from (inl i))

  pub AreDistinct-sort : (xs : List Object) → AreDistinct xs → AreDistinct (sort less xs)
  unfolding sort
  AreDistinct-sort xs d = AreDistinct-sort_onto [] xs (λ y z i j. absurd j) tt d
