-- ===== src/Memory/Table.antt =====
-- The `sync.Map` of memory.go: a table without an order that a program could rely on. The list is
-- the order in which `Range` visits the entries.
use ooo.Base.{
  Bool, List, [], ◌∷◌, Option, none, some, Text, text_eq, text_eq_iff, ◌≡◌, refl, if◌then◌else◌,
  arith, Bool-cases, inl, inr, ap,
}

abbrev pub Table {ℓ} : Type ℓ → Type ℓ
Table V = List (Text × V)

module _ {ℓ} {V : Type ℓ} where
  unfoldable pub load : Text → Table V → Option V
  load k [] = none
  load k ((j, v) ∷ t) = if text_eq j k then some v else load k t

  unfoldable pub store : Text → V → Table V → Table V
  store k v [] = (k, v) ∷ []
  store k v ((j, w) ∷ t) = if text_eq j k then (j, v) ∷ t else (j, w) ∷ store k v t

  -- `Range` with a `Delete` of the keys that pass a test.
  unfoldable pub delete_if : (Text → Bool) → Table V → Table V
  delete_if p [] = []
  delete_if p ((j, w) ∷ t) = let rest = delete_if p t in if p j then rest else (j, w) ∷ rest

  unfoldable pub delete : Text → Table V → Table V
  unfolding delete_if
  delete k t = delete_if (text_eq k) t

  -- The keys that pass a test, in the order of `Range`.
  unfoldable pub keys_if : (Text → Bool) → Table V → List Text
  keys_if p [] = []
  keys_if p ((j, w) ∷ t) = let rest = keys_if p t in if p j then j ∷ rest else rest

  pub load-store :
      (k j : Text) (v : V) (t : Table V)
      → load j (store k v t) ≡ (if text_eq k j then some v else load j t)
  unfolding load store
  load-store k j v [] = refl
  load-store k j v ((i, w) ∷ t) =
      ground (arith, text_eq_iff k j, text_eq_iff i k, text_eq_iff i j, load-store k j v t)

  pub load-delete_if :
      (p : Text → Bool) (j : Text) (t : Table V)
      → load j (delete_if p t) ≡ (if p j then none else load j t)
  unfolding load delete_if
  load-delete_if p j [] = ground arith
  load-delete_if p j ((i, w) ∷ t) = elim (Bool-cases (text_eq i j)) [
    | inl e ↦
        let same : i ≡ j = (text_eq_iff i j).0 e in ground (arith, load-delete_if p j t, ap p same)
    | inr e ↦ ground (arith, load-delete_if p j t)
  ]

  -- A table holds each key once.
  abbrev pub IsTable : Table V → Type ℓ
  IsTable [] = Unit
  IsTable ((k, v) ∷ t) = (load k t ≡ none) × IsTable t

  pub store-IsTable : (k : Text) (v : V) (t : Table V) → IsTable t → IsTable (store k v t)
  unfolding store load
  store-IsTable k v [] h = (refl, tt)
  store-IsTable k v ((j, w) ∷ t) h =
      ground (arith, text_eq_iff j k, text_eq_iff k j, load-store k j v t, store-IsTable k v t h.1)

  pub delete_if-IsTable : (p : Text → Bool) (t : Table V) → IsTable t → IsTable (delete_if p t)
  unfolding delete_if
  delete_if-IsTable p [] h = tt
  delete_if-IsTable p ((j, w) ∷ t) h =
      ground (arith, load-delete_if p j t, delete_if-IsTable p t h.1)

  -- Deleting a key that is not there changes nothing.
  pub delete-absent : (k : Text) (t : Table V) → load k t ≡ none → delete k t ≡ t
  unfolding delete load
  delete-absent k [] h = refl
  delete-absent k ((j, w) ∷ t) h =
      ground (arith, text_eq_iff j k, text_eq_iff k j, delete-absent k t)

  pub load-delete :
      (k j : Text) (t : Table V) → load j (delete k t) ≡ (if text_eq k j then none else load j t)
  unfolding delete
  load-delete k j t = load-delete_if (text_eq k) j t
