-- ===== src/Key/Search.antt =====
-- The loops of Go's `filepath.Match` on a pattern whose only special character is the star: the
-- search for a chunk finds the place from which the rest of the pattern matches, if there is one.
use ooo.Base.{
  ℕ, zero, suc, ◌≤◌, ◌≡◌, refl, sym, ap, ◌∙◌, subst, ◌≢◌, ◌⊎◌, inl, inr, Bool, true, false, Option,
  none, some, [], ◌∷◌, ◌++◌, Text, count, has, ◌==◌, if◌then◌else◌, arith, length, is_empty, tail,
  ==-false, ◌||◌, append_split, Bool-cases, count-append, length-append,
}
use mathlib.Core.List.{append_assoc}
use ooo.Key.Path.{
  chunk_item, literal_item, star, slash, backslash, match_chunk, chunk_at, accept, skip_loop, place,
}
use ooo.Key.Glob.{
  Glob, done, same, leave, take, Glob-literal, Glob-literal_inv, Glob-prepend, Glob-nil_inv,
}

abbrev pub IsPlainChar : ℕ → Type 0
IsPlainChar c = (c ≢ b'[') × (c ≢ b'?') × (c ≢ backslash)

-- No character but the star is special in a pattern.
abbrev pub IsPlain : Text → Type 0
IsPlain [] = Unit
IsPlain (c ∷ p) = IsPlainChar c × IsPlain p

pub IsPlain-append : (p q : Text) → IsPlain p → IsPlain q → IsPlain (p ++ q)
IsPlain-append [] q hp hq = hq
IsPlain-append (c ∷ p) q hp hq = (hp.0, IsPlain-append p q hp.1 hq)

unfoldable pub strip : Text → Text → Option Text
strip [] s = some s
strip (c ∷ l) [] = none
strip (c ∷ l) (d ∷ s) = if c == d then strip l s else none

chunk_item-plain :
    (failed : Bool) (c : ℕ) (l s : Text)
    → IsPlainChar c
    → chunk_item failed c l s ≡ literal_item (failed || is_empty s) c l s
unfolding chunk_item
chunk_item-plain failed c l s p = rw (==-false p.0, ==-false p.1, ==-false p.2)

match_chunk-failed :
    (f : ℕ) (l s : Text) → length l ≤ f → IsPlain l → match_chunk f true l s ≡ some none
unfolding match_chunk
match_chunk-failed f [] s h p = refl
match_chunk-failed zero (c ∷ l) s h p = absurd (omega arith)
match_chunk-failed (suc f) (c ∷ l) s h p =
    rw (chunk_item-plain true c l s p.0, match_chunk)
      (match_chunk-failed f l (tail s) (omega arith) p.1)

match_chunk-plain :
    (f : ℕ) (l s : Text) → length l ≤ f → IsPlain l → match_chunk f false l s ≡ some (strip l s)
unfolding match_chunk strip
match_chunk-plain f [] s h p = refl
match_chunk-plain zero (c ∷ l) s h p = absurd (omega arith)
match_chunk-plain (suc f) (c ∷ l) [] h p =
    rw (chunk_item-plain false c l [] p.0, match_chunk)
      (match_chunk-failed f l [] (omega arith) p.1)
match_chunk-plain (suc f) (c ∷ l) (d ∷ s) h p =
    rw (chunk_item-plain false c l (d ∷ s) p.0, match_chunk)
      (ground (arith, match_chunk-failed f l s, match_chunk-plain f l s))

pub chunk_at-plain : (l s : Text) → IsPlain l → chunk_at l s ≡ some (strip l s)
unfolding chunk_at
chunk_at-plain l s p = match_chunk-plain (length l) l s (omega arith) p

pub strip-append : (l t : Text) → strip l (l ++ t) ≡ some t
unfolding strip
strip-append [] t = refl
strip-append (c ∷ l) t = ground (arith, strip-append l t)

pub strip_inv : (l s t : Text) → strip l s ≡ some t → s ≡ l ++ t
unfolding strip
strip_inv [] s t h = ground arith
strip_inv (c ∷ l) [] t h = cc
strip_inv (c ∷ l) (d ∷ s) t h = ground (arith, strip_inv l s t)

-- The search on its own: the chunk `l` here, or further on within the segment.
pub find : Text → Text → Text → Option Text
unfolding strip accept
find l rest [] = elim (accept rest (strip l [])) [ true ↦ strip l [] | false ↦ none ]
find l rest (n ∷ s) = elim (accept rest (strip l (n ∷ s))) [
  | true ↦ strip l (n ∷ s)
  | false ↦ elim (n == slash) [ true ↦ none | false ↦ find l rest s ]
]

find-accept : (l rest s : Text) → accept rest (strip l s) ≡ true → find l rest s ≡ strip l s
unfolding find
find-accept l rest [] h = ground arith
find-accept l rest (n ∷ s) h = ground arith

skip_loop-find :
    (l rest s : Text)
    → IsPlain l
    → accept rest (strip l s) ≡ false
    → skip_loop l rest s ≡ some (find l rest s)
unfolding skip_loop find
skip_loop-find l rest [] p h = ground arith
skip_loop-find l rest (n ∷ s) p h =
    ground (arith, chunk_at-plain l s p, find-accept l rest s, skip_loop-find l rest s p)

pub place-find : (l rest s : Text) → IsPlain l → place true l rest s ≡ some (find l rest s)
unfolding place
place-find l rest s p =
    ground (arith, chunk_at-plain l s p, find-accept l rest s, skip_loop-find l rest s p)

pub place-strip :
    (l rest s : Text)
    → IsPlain l
    → place false l rest s ≡ some (if accept rest (strip l s) then strip l s else none)
unfolding place
place-strip l rest s p = ground (arith, chunk_at-plain l s p)

-- What the search finds stands behind characters of one segment.
find_inv :
    (l rest s t : Text)
    → find l rest s ≡ some t
    → (u : Text) × (s ≡ u ++ (l ++ t)) × (count slash u ≡ 0)
unfolding find
find_inv l rest [] t h = ([], strip_inv l [] t (ground arith), refl)
find_inv l rest (n ∷ s) t h = elim (Bool-cases (accept rest (strip l (n ∷ s)))) [
  | inl e ↦ ([], strip_inv l (n ∷ s) t (ground arith), refl)
  | inr e ↦ elim (Bool-cases (n == slash)) [
    | inl e' ↦ absurd (ground arith)
    | inr e' ↦
        let (u, q, z) = find_inv l rest s t (ground arith) in
        (n ∷ u, ap (λ x. n ∷ x) q, ground arith)
  ]
]

-- What follows a chunk: nothing, or a star.
abbrev pub IsRest : Text → Type 0
IsRest rest = (rest ≡ []) ⊎ ((r : Text) × (rest ≡ star ∷ r))

Glob-ended : {rest : Text} (t : Text) → rest ≡ [] → accept rest (some t) ≡ true → Glob rest t
unfolding accept
Glob-ended [] e a = rw e done
Glob-ended (c ∷ t) e a = absurd (ground arith)

module _ (l rest : Text) (no_star : has star l ≡ false) where
  pub find-Glob : (s t : Text) → find l rest s ≡ some t → Glob rest t → Glob (star ∷ (l ++ rest)) s
  find-Glob s t h g =
      let (u, q, z) = find_inv l rest s t h in
      rw q (Glob-prepend u z (leave refl (Glob-literal l no_star g)))

  count-same : (w u : Text) → u ++ l ≡ l ++ w → count slash u ≡ 0 → count slash w ≡ 0
  count-same w u p z =
      omega (arith, count-append slash u l, count-append slash l w, ap (count slash) p)

  -- The chunk found at an earlier place serves as well as one found later.
  Glob-earlier :
      (u t t' : Text)
      → IsRest rest
      → count slash u ≡ 0
      → l ++ t' ≡ u ++ (l ++ t)
      → Glob rest t
      → accept rest (some t') ≡ true
      → Glob rest t'
  Glob-earlier u t t' (inl e) z q g a = Glob-ended t' e a
  Glob-earlier u t t' (inr (r, e)) z q g a =
      let (w, p, p') =
        append_split l t' (u ++ l) t (omega (arith, length-append u l))
          (q ∙ sym (append_assoc u l t)) in
      rw (e, p') (Glob-prepend w (count-same w u p z) (rw e at g))

  pub accept-Glob : (t : Text) → IsRest rest → Glob rest t → accept rest (some t) ≡ true
  unfolding accept
  accept-Glob t (inl e) g = ground (arith, Glob-nil_inv (subst (λ r. Glob r t) e g))
  accept-Glob t (inr (r, e)) g = ground arith

  pub find-here : (s t : Text) → IsRest rest → s ≡ l ++ t → Glob rest t → find l rest s ≡ some t
  find-here s t r q g =
      let h : strip l s ≡ some t = rw q (strip-append l t) in
      find-accept l rest s (rw h (accept-Glob t r g)) ∙ h

  find-earlier :
      (d : ℕ) (s t : Text)
      → IsRest rest
      → d ≢ slash
      → find l rest s ≡ some t
      → Glob rest t
      → (o : Option Text) → strip l (d ∷ s) ≡ o
      → accept rest o ≡ true
      → (t' : Text) × (find l rest (d ∷ s) ≡ some t') × Glob rest t'
  find-earlier d s t r n f g none h a = absurd (unfold accept in ground arith)
  find-earlier d s t r n f g (some t') h a =
      let (u, q, z) = find_inv l rest s t f in
      (
        t',
        find-accept l rest (d ∷ s) (rw h a) ∙ h,
        Glob-earlier (d ∷ u) t t' r (ground arith)
            (sym (strip_inv l (d ∷ s) t' h) ∙ ap (λ x. d ∷ x) q) g a,
      )

  -- The search finds a place from which the rest matches, wherever the pattern matches at all.
  pub find_complete :
      (s : Text)
      → IsRest rest
      → Glob (star ∷ (l ++ rest)) s
      → (t : Text) × (find l rest s ≡ some t) × Glob rest t
  unfolding find
  find_complete s r (same n e g) = absurd (n refl)
  find_complete s r (leave e g) =
      let (t, q, g') = Glob-literal_inv l no_star g in (t, find-here s t r q g', g')
  find_complete (d ∷ s) r (take e n g) =
      let (t, f, g') = find_complete s r g in
      elim (Bool-cases (accept rest (strip l (d ∷ s)))) [
        | inl a ↦ find-earlier d s t r n f g' (strip l (d ∷ s)) refl a
        | inr a ↦ (t, ground arith, g')
      ]
