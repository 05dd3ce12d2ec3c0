-- ===== src/Key/Matching.antt =====
-- `Match`, `Peer` and `IsValid` of key/key.go against what they decide.
use mathlib.Core.List.{append-nil}
use ooo.Base.{
  ℕ, ◌≡◌, refl, sym, ap, ◌∙◌, ◌≢◌, ◌↔◌, ◌⊎◌, inl, inr, Bool, true, false, Option, none, some, [],
  ◌∷◌, ◌++◌, Text, text_eq, text_eq_iff, has, has_pair, count, ◌==◌, arith, length, Bool-cases,
  subst, All, ◌||◌, and_inv, and_intro,
}
use ooo.Key.{is_word, ends_in_word, glob_regex, is_valid, match}
use ooo.Key.Path.{star, slash, path_match}
use ooo.Key.Glob.{Glob, Glob-refl, Glob-trans, Glob-count, Glob-literal_inv, Glob-nil_inv}
use ooo.Key.Search.{IsPlain}
use ooo.Key.Agree.{Answers, path_match-Answers}

-- Without a star only the pattern itself matches.
Glob-no_star : (p s : Text) → has star p ≡ false → Glob p s → p ≡ s
Glob-no_star p s h g =
    let (t, e, g') =
      Glob-literal_inv p {rest = []} h (subst (λ x. Glob x s) (sym (append-nil p)) g) in
    sym (append-nil p) ∙ ap (λ x. p ++ x) (sym (Glob-nil_inv g')) ∙ sym e

Answers-true : {G : Type 0} (o : Option Bool) → Answers G o → o ≡ some true → G
Answers-true o a e = subst (Answers _) e a

Answers-some : {G : Type 0} (o : Option Bool) → Answers G o → G → o ≡ some true
Answers-some none a g = absurd a
Answers-some (some true) a g = refl
Answers-some (some false) a g = absurd (a g)

match-Glob : (path key : Text) → IsPlain path → match path key ≡ true → Glob path key
unfolding match
match-Glob path key plain h = elim (Bool-cases (text_eq path key)) [
  | inl e ↦ subst (Glob path) ((text_eq_iff path key).0 e) (Glob-refl path)
  | inr e ↦ Answers-true (path_match path key) (path_match-Answers path key plain) (ground arith)
]

match_by_path :
    (path key : Text)
    → has star path ≡ true
    → path_match path key ≡ some true
    → count slash path ≡ count slash key
    → match path key ≡ true
unfolding match
match_by_path path key h e c = ground arith

Glob-match : (path key : Text) → IsPlain path → Glob path key → match path key ≡ true
unfolding match
Glob-match path key plain g = elim (Bool-cases (has star path)) [
  | inl e ↦
      match_by_path path key e
        (Answers-some (path_match path key) (path_match-Answers path key plain) g) (Glob-count g)
  | inr e ↦ ground (arith, text_eq_iff path key, Glob-no_star path key e g)
]

-- `Match` answers true exactly on the keys that the pattern describes, where the star is the only
-- special character of the pattern. Its test on the slashes refuses nothing more.
pub match_iff : (path key : Text) → IsPlain path → (match path key ≡ true) ↔ Glob path key
match_iff path key plain = (match-Glob path key plain, Glob-match path key plain)

-- What matches a pattern that matches another pattern matches the other one, where the star is the
-- only special character of both patterns.
pub match_trans :
    (p q k : Text) → IsPlain p → IsPlain q → match p q ≡ true → match q k ≡ true → match p k ≡ true
match_trans p q k hp hq h h' =
    Glob-match p k hp (Glob-trans (match-Glob p q hp h) (match-Glob q k hq h'))

-- A character of a key.
abbrev pub IsKeyChar : ℕ → Type 0
IsKeyChar c = (is_word c ≡ true) ⊎ (c ≡ slash)

abbrev pub first_or : ℕ → Text → ℕ
first_or d [] = d
first_or d (c ∷ s) = c

abbrev pub last_or : ℕ → Text → ℕ
last_or d [] = d
last_or d (c ∷ s) = last_or c s

-- What a valid key is, point by point.
pub record IsKey (key : Text) : Type 0 where
  pub chars : All IsKeyChar key
  pub starts : is_word (first_or slash key) ≡ true
  pub ends : is_word (last_or slash key) ≡ true
  pub not_two : length key ≢ 2
  pub no_slashes : has_pair slash key ≡ false
  pub no_stars : has_pair star key ≡ false

key_char : (c : ℕ) → ((is_word c || (c == slash)) ≡ true) ↔ IsKeyChar c
key_char c = ground arith

ends_in_word_inv :
    (d : ℕ) (s : Text) → ends_in_word s ≡ true → All IsKeyChar s × (is_word (last_or d s) ≡ true)
unfolding ends_in_word
ends_in_word_inv d [] h = cc
ends_in_word_inv d (c ∷ []) h = ((inl h, tt), h)
ends_in_word_inv d (c ∷ e ∷ s) h =
    let (hc, hs) = and_inv _ _ h in
    let (rest, last) = ends_in_word_inv d (e ∷ s) hs in (((key_char c).0 hc, rest), last)

ends_in_word_intro :
    (d : ℕ) (s : Text)
    → s ≢ []
    → All IsKeyChar s
    → is_word (last_or d s) ≡ true
    → ends_in_word s ≡ true
unfolding ends_in_word
ends_in_word_intro d [] n h k = absurd (n refl)
ends_in_word_intro d (c ∷ []) n h k = k
ends_in_word_intro d (c ∷ e ∷ s) n h k =
    and_intro ((key_char c).1 h.0) (ends_in_word_intro c (e ∷ s) (λ p. cc) h.1 k)

not_slash_word : is_word slash ≡ false
unfolding is_word
not_slash_word = refl

glob_regex-IsKey :
    (key : Text)
    → glob_regex key ≡ true
    → has_pair slash key ≡ false
    → has_pair star key ≡ false
    → IsKey key
unfolding glob_regex
glob_regex-IsKey [] h a b = cc
glob_regex-IsKey (c ∷ []) h a b = record {
  chars = (inl h, tt);
  starts = h;
  ends = h;
  not_two = λ e. omega arith;
  no_slashes = a;
  no_stars = b;
}
glob_regex-IsKey (c ∷ d ∷ []) h a b = cc
glob_regex-IsKey (c ∷ d ∷ e ∷ s) h a b =
    let (hc, h') = and_inv _ _ h in
    let (hd, hs) = and_inv _ _ h' in
    let (rest, last) = ends_in_word_inv c (e ∷ s) hs in
    record {
      chars = (inl hc, ((key_char d).0 hd, rest));
      starts = hc;
      ends = last;
      not_two = λ e. omega arith;
      no_slashes = a;
      no_stars = b;
    }

IsKey-glob_regex : (key : Text) → IsKey key → glob_regex key ≡ true
unfolding glob_regex
IsKey-glob_regex [] k = cc (k.starts, not_slash_word)
IsKey-glob_regex (c ∷ []) k = k.starts
IsKey-glob_regex (c ∷ d ∷ []) k = absurd (k.not_two refl)
IsKey-glob_regex (c ∷ d ∷ e ∷ s) k = and_intro k.starts (
    and_intro ((key_char d).1 k.chars.1.0)
      (ends_in_word_intro d (e ∷ s) (λ p. cc) k.chars.1.1 k.ends))

-- `IsValid` accepts exactly the texts of letters, digits, stars and slashes that begin and end
-- with no slash, have no two slashes and no two stars in a row, and are neither empty nor two
-- characters long.
pub is_valid_iff : (key : Text) → (is_valid key ≡ true) ↔ IsKey key
unfolding is_valid
is_valid_iff key = (
  λ h. glob_regex-IsKey key (ground arith) (ground arith) (ground arith),
  λ k. rw (k.no_slashes, k.no_stars) (IsKey-glob_regex key k),
)
