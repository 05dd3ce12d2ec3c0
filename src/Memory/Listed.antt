-- ===== src/Memory/Listed.antt =====
-- The list of the objects under the keys that pass a test, as memory.go's reads make it from the
-- map, against what the map holds, and that of the keys.
use ooo.Base.{
  Bool, true, List, [], ◌∷◌, none, some, Text, text_eq, text_eq_iff, text_eq_refl, ◌≡◌, ◌≢◌, refl,
  ◌∙◌, sym, ap, subst, ◌⊎◌, inl, inr, ◌↔◌, if◌then◌else◌, arith, Bool-cases, Among,
}
use ooo.Meta.{Object, Codec, sort}
use ooo.Memory.Table.{Table, load, keys_if}
use ooo.Memory.Reads.{objects_if}
use ooo.Memory.Entries.{IsEntry, IsWell}
use ooo.Memory.Abstract.{view_of}
use ooo.Memory.Sorted.{IsIn, AreDistinct, All-IsIn, IsIn-sort, AreDistinct-sort}

module _ (codec : Codec) where
  IsWell-first : (k v : Text) (t : Table Text) → IsWell codec ((k, v) ∷ t) → IsEntry codec k v
  unfolding load
  IsWell-first k v t w = w.entries k v (ground (arith, text_eq_refl k))

  load-later :
      (k v j : Text) (t : Table Text)
      → load k t ≡ none
      → load j t ≢ none
      → load j ((k, v) ∷ t) ≡ load j t
  unfolding load
  load-later k v j t h n = elim (Bool-cases (text_eq k j)) [
    | inl e ↦ absurd (n (subst (λ i. load i t ≡ none) ((text_eq_iff k j).0 e) h))
    | inr e ↦ rw e
  ]

  IsWell-rest : (k v : Text) (t : Table Text) → IsWell codec ((k, v) ∷ t) → IsWell codec t
  IsWell-rest k v t w = record {
    table = w.table.1;
    entries =
        λ key value h. w.entries key value (load-later k v key t w.table.0 (λ e. ground arith) ∙ h);
  }

  objects_if-next :
      (p : Text → Bool) (k v : Text) (t : Table Text) (o : Object)
      → codec.decode_object v ≡ some o
      → objects_if codec p ((k, v) ∷ t)
        ≡ (if p k then o ∷ objects_if codec p t else objects_if codec p t)
  unfolding objects_if
  objects_if-next p k v t o d = rw d

  view_of-first :
      (k v : Text) (t : Table Text) (o : Object)
      → codec.decode_object v ≡ some o
      → view_of codec ((k, v) ∷ t) k ≡ some o
  unfolding view_of load
  view_of-first k v t o d = ground (arith, text_eq_refl k)

  view_of-later :
      (k v j : Text) (t : Table Text) (o : Object)
      → load k t ≡ none
      → view_of codec t j ≡ some o
      → view_of codec ((k, v) ∷ t) j ≡ some o
  unfolding view_of
  view_of-later k v j t o h e = ground (arith, load-later k v j t h (λ n. ground arith))

  view_of_inv :
      (k v j : Text) (t : Table Text) (o : Object)
      → view_of codec ((k, v) ∷ t) j ≡ some o
      → ((k ≡ j) × (codec.decode_object v ≡ some o)) ⊎ (view_of codec t j ≡ some o)
  unfolding view_of load
  view_of_inv k v j t o e = elim (Bool-cases (text_eq k j)) [
    | inl s ↦ inl ((text_eq_iff k j).0 s, ground arith)
    | inr n ↦ inr (ground arith)
  ]

  -- What the scan lists are the objects that the map holds under the keys that pass the test.
  objects_if-IsIn :
      (p : Text → Bool) (mem : Table Text) (o : Object)
      → IsWell codec mem
      → IsIn o (objects_if codec p mem)
      → (p o.path ≡ true) × (view_of codec mem o.path ≡ some o)
  objects_if-IsIn p [] o w i = absurd (unfold objects_if in i)
  objects_if-IsIn p ((k, v) ∷ t) o w i =
      let e = IsWell-first k v t w in
      let i' = subst (IsIn o) (objects_if-next p k v t e.object e.decodes) i in
      let rest : IsIn o (objects_if codec p t)
          → (p o.path ≡ true) × (view_of codec ((k, v) ∷ t) o.path ≡ some o) =
        λ j.
          let (q, h) = objects_if-IsIn p t o (IsWell-rest k v t w) j in
          (q, view_of-later k v o.path t o w.table.0 h) in
      elim (Bool-cases (p k)) [
        | inr q ↦ rest (rw (q, if◌then◌else◌) at i')
        | inl q ↦
            let i'' : IsIn o (e.object ∷ objects_if codec p t) = rw (q, if◌then◌else◌) at i' in
            elim i'' [
              | inr j ↦ rest j
              | inl s ↦
                  let named : o.path ≡ k = ap (λ x. x.path) s ∙ e.names_path in
                  (
                    ap p named ∙ q,
                    ap (view_of codec ((k, v) ∷ t)) named
                        ∙ view_of-first k v t e.object e.decodes
                        ∙ ap some (sym s),
                  )
            ]
      ]

  IsIn-objects_if :
      (p : Text → Bool) (mem : Table Text) (o : Object)
      → IsWell codec mem
      → p o.path ≡ true
      → view_of codec mem o.path ≡ some o
      → IsIn o (objects_if codec p mem)
  IsIn-objects_if p [] o w q h = absurd (unfold view_of load in ground arith)
  IsIn-objects_if p ((k, v) ∷ t) o w q h =
      let e = IsWell-first k v t w in
      subst (IsIn o) (sym (objects_if-next p k v t e.object e.decodes))
        (elim (view_of_inv k v o.path t o h) [
          | inl (s, d) ↦
              let same : e.object ≡ o = ground (arith, e.decodes) in
              rw (ap p s ∙ q, if◌then◌else◌) (inl (sym same))
          | inr h' ↦
              let i = IsIn-objects_if p t o (IsWell-rest k v t w) q h' in
              elim (Bool-cases (p k)) [
                | inl r ↦ rw (r, if◌then◌else◌) (inr i)
                | inr r ↦ rw (r, if◌then◌else◌) i
              ]
        ])

  objects_if-AreDistinct :
      (p : Text → Bool) (mem : Table Text) → IsWell codec mem → AreDistinct (objects_if codec p mem)
  objects_if-AreDistinct p [] w = unfold objects_if in tt
  objects_if-AreDistinct p ((k, v) ∷ t) w =
      let e = IsWell-first k v t w in
      let w' = IsWell-rest k v t w in
      let rest = objects_if-AreDistinct p t w' in
      subst AreDistinct (sym (objects_if-next p k v t e.object e.decodes))
        (elim (Bool-cases (p k)) [
          | inr r ↦ rw (r, if◌then◌else◌) rest
          | inl r ↦
              rw (r, if◌then◌else◌)
                (
                  All-IsIn (λ y. e.object.path ≢ y.path) (objects_if codec p t)
                      (λ y i s.
                        let there = (objects_if-IsIn p t y w' i).1 in
                        let at_key : view_of codec t k ≡ some y =
                          ap (view_of codec t) (sym e.names_path ∙ s) ∙ there in
                        let absent = w.table.0 in unfold view_of in ground arith),
                  rest,
                )
        ])

  -- What a list holds of a map: the objects under the keys that are wanted, each once, and no others.
  pub record IsListing (wanted : Text → Type 0) (mem : Table Text) (l : List Object) : Type 0 where
    pub members : (o : Object) → IsIn o l ↔ (wanted o.path × (view_of codec mem o.path ≡ some o))
    pub distinct : AreDistinct l

  pub sort-IsListing :
      (less : Object → Object → Bool) (wanted : Text → Type 0) (p : Text → Bool) (mem : Table Text)
      → ((k : Text) → (p k ≡ true) ↔ wanted k)
      → IsWell codec mem
      → IsListing wanted mem (sort less (objects_if codec p mem))
  sort-IsListing less wanted p mem same w = record {
    members = λ o.
        let (out, into) = IsIn-sort less o (objects_if codec p mem) in
        (
          λ i. let (q, h) = objects_if-IsIn p mem o w (out i) in ((same o.path).0 q, h),
          λ m. into (IsIn-objects_if p mem o w ((same o.path).1 m.0) m.1),
        );
    distinct = AreDistinct-sort less (objects_if codec p mem) (objects_if-AreDistinct p mem w);
  }

-- The keys of the map that pass a test.
load-next : (j k v : Text) (mem : Table Text) → load k mem ≢ none → load k ((j, v) ∷ mem) ≢ none
unfolding load
load-next j k v mem h = ground arith

load-first : (j k v : Text) (mem : Table Text) → k ≡ j → load k ((j, v) ∷ mem) ≢ none
unfolding load
load-first j k v mem e = ground (arith, text_eq_iff j k)

load_inv :
    (j k v : Text) (mem : Table Text) → load k ((j, v) ∷ mem) ≢ none → (k ≡ j) ⊎ (load k mem ≢ none)
unfolding load
load_inv j k v mem h = elim (Bool-cases (text_eq j k)) [
  | inl e ↦ inl (sym ((text_eq_iff j k).0 e))
  | inr e ↦ inr (rw e at h)
]

pub Among-keys_if :
    (p : Text → Bool) (k : Text) (mem : Table Text)
    → Among k (keys_if p mem)
    → (load k mem ≢ none) × (p k ≡ true)
unfolding keys_if
Among-keys_if p k [] h = absurd h
Among-keys_if p k ((j, v) ∷ mem) h = elim (Bool-cases (p j)) [
  | inl e ↦
      let h' : Among k (j ∷ keys_if p mem) = rw (e, if◌then◌else◌) at h in
      elim h' [
        | inl s ↦ (load-first j k v mem s, ap p s ∙ e)
        | inr r ↦ let (l, q) = Among-keys_if p k mem r in (load-next j k v mem l, q)
      ]
  | inr e ↦
      let h' : Among k (keys_if p mem) = rw (e, if◌then◌else◌) at h in
      let (l, q) = Among-keys_if p k mem h' in (load-next j k v mem l, q)
]

pub keys_if-Among :
    (p : Text → Bool) (k : Text) (mem : Table Text)
    → load k mem ≢ none
    → p k ≡ true
    → Among k (keys_if p mem)
unfolding keys_if
keys_if-Among p k [] h e = absurd (unfold load in h refl)
keys_if-Among p k ((j, v) ∷ mem) h e = elim (load_inv j k v mem h) [
  | inl s ↦ let q : p j ≡ true = ap p (sym s) ∙ e in rw (q, if◌then◌else◌) (inl s)
  | inr l ↦
      let rest = keys_if-Among p k mem l e in
      elim (Bool-cases (p j)) [
        | inl q ↦ rw (q, if◌then◌else◌) (inr rest)
        | inr q ↦ rw (q, if◌then◌else◌) rest
      ]
]
