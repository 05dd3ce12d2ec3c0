-- ===== src/Database/Conformance/Rising.antt =====
-- Lists of objects whose creation times rise, in the orders of meta/objects.go: what `sort.Slice` makes of
-- them.
use ooo.Base.{
  ℕ, suc, ◌+◌, true, false, List, [], ◌∷◌, ◌++◌, Text, length, All, itoa, ℤ, pos, ltb_ℤ, ◌≡◌, refl,
  ◌∙◌, ap, sym, arith, if◌then◌else◌,
}
use mathlib.Core.List.{append-nil}
use ooo.Meta.{Object, sort, sort_onto, insert, sort_asc, sort_desc}
use ooo.Database.Conformance.Numbered.{numbered}

abbrev pub Earlier : Object → Object → Type 0
Earlier x y = ltb_ℤ x.created y.created ≡ true

-- Each object is earlier than those behind it.
abbrev pub IsRising : List Object → Type 0
IsRising [] = Unit
IsRising (x ∷ xs) = All (Earlier x) xs × IsRising xs

abbrev pub reverse_onto : List Object → List Object → List Object
reverse_onto [] acc = acc
reverse_onto (x ∷ xs) acc = reverse_onto xs (x ∷ acc)

abbrev AllBefore : List Object → List Object → Type 0
AllBefore done [] = Unit
AllBefore done (x ∷ xs) = All (λ y. Earlier y x) done × AllBefore done xs

All-last :
    (P : Object → Type 0) (done : List Object) (x : Object)
    → All P done
    → P x
    → All P (done ++ x ∷ [])
All-last P [] x h k = (k, tt)
All-last P (y ∷ done) x h k = (h.0, All-last P done x h.1 k)

AllBefore-last :
    (done : List Object) (x : Object) (xs : List Object)
    → AllBefore done xs
    → All (Earlier x) xs
    → AllBefore (done ++ x ∷ []) xs
AllBefore-last done x [] h k = tt
AllBefore-last done x (y ∷ xs) h k =
    (All-last (λ z. Earlier z y) done x h.0 k.0, AllBefore-last done x xs h.1 k.1)

AllBefore-first :
    (done : List Object) (x : Object) (xs : List Object)
    → AllBefore done xs
    → All (Earlier x) xs
    → AllBefore (x ∷ done) xs
AllBefore-first done x [] h k = tt
AllBefore-first done x (y ∷ xs) h k = ((k.0, h.0), AllBefore-first done x xs h.1 k.1)

insert-last :
    (x : Object) (ys : List Object)
    → All (λ y. Earlier y x) ys
    → insert sort_asc x ys ≡ ys ++ x ∷ []
unfolding insert
insert-last x [] h = refl
insert-last x (y ∷ ys) h =
    let other : ltb_ℤ x.created y.created ≡ false = asym x.created y.created h.0 in
    rw (sort_asc, other, if◌then◌else◌) (ap (λ l. y ∷ l) (insert-last x ys h.1))
  where
    asym : (a b : ℤ) → ltb_ℤ b a ≡ true → ltb_ℤ a b ≡ false
    asym a b h = ground arith

insert-first :
    (x : Object) (ys : List Object) → All (λ y. Earlier y x) ys → insert sort_desc x ys ≡ x ∷ ys
unfolding insert
insert-first x [] h = refl
insert-first x (y ∷ ys) h = rw (sort_desc, h.0, if◌then◌else◌) refl

pub append-cons : (a : List Object) (x : Object) (b : List Object) → (a ++ x ∷ []) ++ b ≡ a ++ x ∷ b
append-cons [] x b = refl
append-cons (y ∷ a) x b = ap (λ l. y ∷ l) (append-cons a x b)

sort_onto-rising :
    (done xs : List Object)
    → AllBefore done xs
    → IsRising xs
    → sort_onto sort_asc done xs ≡ done ++ xs
unfolding sort_onto
sort_onto-rising done [] h k = sym (append-nil done)
sort_onto-rising done (x ∷ xs) h k =
    ap (λ l. sort_onto sort_asc l xs) (insert-last x done h.0)
    ∙ sort_onto-rising (done ++ x ∷ []) xs (AllBefore-last done x xs h.1 k.0) k.1
    ∙ append-cons done x xs

sort_onto-falling :
    (done xs : List Object)
    → AllBefore done xs
    → IsRising xs
    → sort_onto sort_desc done xs ≡ reverse_onto xs done
unfolding sort_onto
sort_onto-falling done [] h k = refl
sort_onto-falling done (x ∷ xs) h k =
    ap (λ l. sort_onto sort_desc l xs) (insert-first x done h.0)
    ∙ sort_onto-falling (x ∷ done) xs (AllBefore-first done x xs h.1 k.0) k.1

AllBefore-nil : (xs : List Object) → AllBefore [] xs
AllBefore-nil [] = tt
AllBefore-nil (x ∷ xs) = (tt, AllBefore-nil xs)

pub sort-rising : (xs : List Object) → IsRising xs → sort sort_asc xs ≡ xs
unfolding sort
sort-rising xs h = sort_onto-rising [] xs (AllBefore-nil xs) h

pub sort-falling : (xs : List Object) → IsRising xs → sort sort_desc xs ≡ reverse_onto xs []
unfolding sort
sort-falling xs h = sort_onto-falling [] xs (AllBefore-nil xs) h

-- The objects of numbered keys, from `i` on, created at given times.
abbrev pub numbered_object : Text → ℕ → ℤ → Object
numbered_object body i time = record {
  created = time;
  updated = pos 0;
  index = itoa i;
  path = numbered i;
  body = body;
}

abbrev pub numbered_objects : Text → ℕ → List ℤ → List Object
numbered_objects body i [] = []
numbered_objects body i (t ∷ times) = numbered_object body i t ∷ numbered_objects body (suc i) times

-- Times that rise.
abbrev pub IsIncreasing : List ℤ → Type 0
IsIncreasing [] = Unit
IsIncreasing (t ∷ times) = All (λ u. ltb_ℤ t u ≡ true) times × IsIncreasing times

pub numbered_objects-IsRising :
    (body : Text) (i : ℕ) (times : List ℤ)
    → IsIncreasing times
    → IsRising (numbered_objects body i times)
numbered_objects-IsRising body i [] h = tt
numbered_objects-IsRising body i (t ∷ times) h =
    (later (suc i) times h.0, numbered_objects-IsRising body (suc i) times h.1)
  where
    later :
        (j : ℕ) (times : List ℤ)
        → All (λ u. ltb_ℤ t u ≡ true) times
        → All (Earlier (numbered_object body i t)) (numbered_objects body j times)
    later j [] h = tt
    later j (u ∷ times) h = (h.0, later (suc j) times h.1)

-- The last one comes first in the other order.
pub reverse_onto-last :
    (body : Text) (i : ℕ) (t : ℤ) (times : List ℤ) (acc : List Object)
    → (o : Object) × (rest : List Object) × (reverse_onto (numbered_objects body i (t ∷ times)) acc
        ≡ o ∷ rest)
      × (o.index ≡ itoa (i + length times))
      × (o.path ≡ numbered (i + length times))
reverse_onto-last body i t [] acc =
    let same : i ≡ i + length {A = ℤ} [] = omega arith in
    (numbered_object body i t, acc, refl, ap itoa same, ap numbered same)
reverse_onto-last body i t (u ∷ times) acc =
    let (o, rest, e, index, path) =
      reverse_onto-last body (suc i) u times (numbered_object body i t ∷ acc) in
    let same : suc i + length times ≡ i + suc (length times) = omega arith in
    (o, rest, e, index ∙ ap itoa same, path ∙ ap numbered same)
