-- ===== src/Key/Agree.antt =====
-- `filepath.Match` agrees with `Glob` on every pattern whose only special character is the star:
-- it stops within its fuel, reports no bad pattern, and says whether the name matches.
use ooo.Base.{
  ℕ, zero, suc, ◌≤◌, ◌≡◌, refl, ◌∙◌, sym, ◌≢◌, ◌↔◌, inl, inr, Bool, true, false, not, ◌&&◌, Option,
  none, some, [], ◌∷◌, ◌++◌, Text, has, arith, length, is_empty, Bool-cases, subst, if◌then◌else◌,
}
use native.Mathlib.Decide.{ℕ_discrete}
use ooo.Key.Path.{
  star, slash, strip_stars, place, chunk_at, accept, check_rest, after_place, match_loop,
  path_match,
}
use ooo.Key.Glob.{
  Glob, done, Glob-literal, Glob-literal_inv, Glob-nil_inv, Glob-star, Glob-star_inv,
}
use ooo.Key.Search.{
  IsPlain, strip, strip_inv, chunk_at-plain, find, place-find, place-strip, find-Glob,
  find_complete, accept-Glob, strip-append,
}
use ooo.Key.Cut.{
  chunk_of, rest_of, after_stars, IsCut, split-IsCut, strip-star, strip-char, after_stars-ne-star,
  after_stars-IsPlain, one_star, all_stars, round_shorter,
}

-- The answer is given, and it is right about `G`.
abbrev pub Answers : Type 0 → Option Bool → Type 0
Answers G none = ⊥
Answers G (some true) = G
Answers G (some false) = ¬ G

Answers-iff : {G H : Type 0} (o : Option Bool) → G ↔ H → Answers G o → Answers H o
Answers-iff (some true) e a = e.0 a
Answers-iff (some false) e a = λ h. a (e.1 h)
Answers-iff none e a = a

check_round-plain :
    (f : ℕ) (q : Text)
    → check_rest f (rest_of q) ≡ some false
    → IsPlain (chunk_of q)
    → elim (chunk_at (chunk_of q) []) as (λ _. Option Bool) [
      | none ↦ none
      | some _ ↦ check_rest f (rest_of q)
    ]
      ≡ some false
check_round-plain f q h plain = rw (chunk_at-plain (chunk_of q) [] plain) h

-- The rest of a plain pattern is well formed.
check_rest-plain : (f : ℕ) (p : Text) → length p ≤ f → IsPlain p → check_rest f p ≡ some false
unfolding check_rest
check_rest-plain f [] h k = refl
check_rest-plain zero (c ∷ p) h k = absurd (omega arith)
check_rest-plain (suc f) (c ∷ p) h k =
    let q = after_stars (c ∷ p) in
    let plain : IsPlain q = after_stars-IsPlain (c ∷ p) k in
    let ih : check_rest f (rest_of q) ≡ some false =
      check_rest-plain f (rest_of q) (omega (arith, round_shorter c p k))
        (split-IsCut q plain).rest_plain in
    check_round-plain f q ih (split-IsCut q plain).chunk_plain

-- One round of the loop, after the leading stars; the Boolean says that a star ends the pattern.
round_of : ℕ → Text → Bool → Text → Bool → Option Bool
round_of f name starred q true = some (not (has slash name))
round_of f name starred q false =
    after_place f (rest_of q) (match_loop f (rest_of q))
      (place starred (chunk_of q) (rest_of q) name)

abbrev round : ℕ → Text → Bool × Text → Option Bool
round f name stripped =
    round_of f name stripped.0 stripped.1 (stripped.0 && is_empty (chunk_of stripped.1))

match_loop-round :
    (f c : ℕ) (p name : Text) → match_loop (suc f) (c ∷ p) name ≡ round f name (strip_stars (c ∷ p))
unfolding match_loop round_of
match_loop-round f c p name = ground arith

module _ (f : ℕ) (name q : Text) (plain : IsPlain q) (fuel : length (rest_of q) ≤ f)
    (ih : (t : Text) → Answers (Glob (rest_of q) t) (match_loop f (rest_of q) t)) where
  -- What the loop makes of the search's result, where that says which names match.
  after_place-Answers :
      {G : Type 0} (o : Option Text)
      → (o ≡ none → ¬ G)
      → ((t : Text) → o ≡ some t → Glob (rest_of q) t ↔ G)
      → Answers G (after_place f (rest_of q) (match_loop f (rest_of q)) (some o))
  unfolding after_place
  after_place-Answers {G} none miss hit =
      subst (Answers G) (sym (check_rest-plain f (rest_of q) fuel (split-IsCut q plain).rest_plain))
        (miss refl)
  after_place-Answers (some t) miss hit =
      Answers-iff (match_loop f (rest_of q) t) (hit t refl) (ih t)

  star-Answers : q ≡ [] → Answers (Glob (star ∷ q) name) (some (not (has slash name)))
  star-Answers e = elim (Bool-cases (has slash name)) [
    | inl h ↦ rw (h, e) (λ g. ground (arith, Glob-star_inv g refl))
    | inr h ↦ rw (h, e) (Glob-star name h)
  ]

  chunk_empty :
      ((r : Text) → q ≢ star ∷ r) → (l : Text) → IsCut q l (rest_of q) → is_empty l ≡ true → q ≡ []
  chunk_empty no_star [] cut e = elim cut.at_star [
    | inl r ↦ sym cut.whole ∙ r
    | inr r ↦ absurd (no_star r.0 (sym cut.whole ∙ r.1))
  ]
  chunk_empty no_star (c ∷ l) cut e = cc

  found_star :
      (o : Option Text)
      → find (chunk_of q) (rest_of q) name ≡ o
      → Answers
          (Glob (star ∷ q) name)
          (after_place f (rest_of q) (match_loop f (rest_of q)) (some o))
  found_star o h =
      let cut = split-IsCut q plain in
      let complete = λ (g : Glob (star ∷ q) name).
        find_complete (chunk_of q) (rest_of q) cut.no_star name cut.at_star
          (subst (λ x. Glob (star ∷ x) name) (sym cut.whole) g) in
      after_place-Answers o (λ e g. let (t, f', g') = complete g in cc)
        (λ t e. (
          λ g.
              subst (λ x. Glob (star ∷ x) name) cut.whole
                (find-Glob (chunk_of q) (rest_of q) cut.no_star name t (h ∙ e) g),
          λ g.
              let (t', f', g') = complete g in
              let same_place : t' ≡ t = cc in subst (Glob (rest_of q)) same_place g',
        ))

  round-star : ((r : Text) → q ≢ star ∷ r) → Answers (Glob (star ∷ q) name) (round f name (true, q))
  unfolding round_of
  round-star no_star = elim (Bool-cases (is_empty (chunk_of q))) [
    | inl e ↦
        subst (λ b. Answers (Glob (star ∷ q) name) (round_of f name true q b)) (sym e)
          (star-Answers (chunk_empty no_star (chunk_of q) (split-IsCut q plain) e))
    | inr e ↦
        subst (λ b. Answers (Glob (star ∷ q) name) (round_of f name true q b)) (sym e)
          (rw (place-find (chunk_of q) (rest_of q) name (split-IsCut q plain).chunk_plain)
            (found_star _ refl))
  ]

  -- The chunk at the name's start, if what follows it serves.
  here : Option Text
  here = let o = strip (chunk_of q) name in if accept (rest_of q) o then o else none

  here_inv : (t : Text) → here ≡ some t → name ≡ chunk_of q ++ t
  unfolding here
  here_inv t h = strip_inv (chunk_of q) name t (ground arith)

  Glob-here : Glob q name → (t : Text) × (here ≡ some t) × Glob (rest_of q) t
  unfolding here
  Glob-here g =
      let cut = split-IsCut q plain in
      let (t, e, g') =
        Glob-literal_inv (chunk_of q) cut.no_star (subst (λ x. Glob x name) (sym cut.whole) g) in
      let found : strip (chunk_of q) name ≡ some t = rw e (strip-append (chunk_of q) t) in
      (t, rw (found, accept-Glob (chunk_of q) (rest_of q) cut.no_star t cut.at_star g'), g')

  here-Glob : (t : Text) → here ≡ some t → Glob (rest_of q) t → Glob q name
  here-Glob t h g =
      let cut = split-IsCut q plain in
      subst (Glob q) (sym (here_inv t h))
        (subst (λ x. Glob x (chunk_of q ++ t)) cut.whole (Glob-literal (chunk_of q) cut.no_star g))

  found_here :
      (o : Option Text)
      → here ≡ o
      → Answers (Glob q name) (after_place f (rest_of q) (match_loop f (rest_of q)) (some o))
  found_here o h =
      after_place-Answers o (λ e g. let (t, f', g') = Glob-here g in cc)
        (λ t e. (
          here-Glob t (h ∙ e),
          λ g.
              let (t', f', g') = Glob-here g in
              let same_place : t' ≡ t = cc in subst (Glob (rest_of q)) same_place g',
        ))

  round-literal : Answers (Glob q name) (round f name (false, q))
  unfolding round_of here
  round-literal =
      rw (place-strip (chunk_of q) (rest_of q) name (split-IsCut q plain).chunk_plain)
        (found_here _ refl)

-- The first round is the starred or the literal one.
first_round :
    (f c : ℕ) (p name : Text)
    → IsPlain (c ∷ p)
    → IsPlain (after_stars (c ∷ p))
    → length (rest_of (after_stars (c ∷ p))) ≤ f
    → ((t : Text)
        → Answers
            (Glob (rest_of (after_stars (c ∷ p))) t)
            (match_loop f (rest_of (after_stars (c ∷ p))) t))
    → Answers (Glob (c ∷ p) name) (round f name (strip_stars (c ∷ p)))
first_round f c p name k q_plain fuel ih = elim (ℕ_discrete c star) [
  | yes e ↦
      let s = strip-star c p e in
      subst (λ x. Answers (Glob (c ∷ p) name) (round f name x)) (sym s)
        (Answers-iff (round f name (true, after_stars p)) (all_stars c p e, one_star c p e)
          (round-star f name (after_stars p) (after_stars-IsPlain p k.1)
            (subst (λ x. length (rest_of x.1) ≤ f) s fuel)
            (subst (λ x. (t : Text) → Answers (Glob (rest_of x.1) t) (match_loop f (rest_of x.1) t))
              s ih)
            (after_stars-ne-star p)))
  | no n ↦
      let s = strip-char c p n in
      subst (λ x. Answers (Glob (c ∷ p) name) (round f name x)) (sym s)
        (round-literal f name (c ∷ p) k (subst (λ x. length (rest_of x.1) ≤ f) s fuel) (
          subst (λ x. (t : Text) → Answers (Glob (rest_of x.1) t) (match_loop f (rest_of x.1) t)) s
            ih))
]

nil-Answers : (name : Text) → Answers (Glob [] name) (some (is_empty name))
nil-Answers [] = done
nil-Answers (c ∷ name) = λ g. absurd (ground (arith, Glob-nil_inv g))

match_loop-Answers :
    (f : ℕ) (p name : Text) → length p ≤ f → IsPlain p → Answers (Glob p name) (match_loop f p name)
match_loop-Answers f [] name h k = unfold match_loop in nil-Answers name
match_loop-Answers zero (c ∷ p) name h k = absurd (omega arith)
match_loop-Answers (suc f) (c ∷ p) name h k =
    let q = after_stars (c ∷ p) in
    let q_plain : IsPlain q = after_stars-IsPlain (c ∷ p) k in
    let fuel : length (rest_of q) ≤ f = omega (arith, round_shorter c p k) in
    let ih =
      λ (t : Text). match_loop-Answers f (rest_of q) t fuel (split-IsCut q q_plain).rest_plain in
    subst (Answers (Glob (c ∷ p) name)) (sym (match_loop-round f c p name))
      (first_round f c p name k q_plain fuel ih)

pub path_match-Answers : (p name : Text) → IsPlain p → Answers (Glob p name) (path_match p name)
unfolding path_match
path_match-Answers p name k = match_loop-Answers (length p) p name (omega arith) k
