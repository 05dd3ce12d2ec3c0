-- ===== src/Base/Strings.antt =====
-- Go strings and byte slices as lists of code points (their bytes, where they are ASCII).
use Prim.Native.Nat.{ℕ, suc, ◌+◌}
use Prim.Native.Char.{code}
use Prim.Native.String.{String}
use mathlib.Core.Path.{◌≡◌, refl}
use mathlib.Core.Logic.{◌↔◌, ◌⊎◌}
use mathlib.Core.Option
use mathlib.Core.Option.{Option, none, some}
use mathlib.Core.Bool.{Bool, true, false, ◌&&◌, ◌||◌}
use mathlib.Core.List.{List, [], ◌∷◌, ◌++◌}
use native.Mathlib.Omega.{arith}
use ooo.Base.Tests.{◌==◌, ltb, leb, if◌then◌else◌}

abbrev pub Text : Type 0
Text = List ℕ

abbrev pub codes : String → Text
codes String.[] = []
codes (String.◌∷◌ c s) = code c ∷ codes s

-- `==` on strings, and `bytes.Equal`.
abbrev pub text_eq : Text → Text → Bool
text_eq [] [] = true
text_eq (a ∷ s) (b ∷ t) = (a == b) && text_eq s t
text_eq _ _ = false

pub text_eq_iff : (s t : Text) → (text_eq s t ≡ true) ↔ (s ≡ t)
text_eq_iff [] [] = ground arith
text_eq_iff (a ∷ s) [] = ground arith
text_eq_iff [] (b ∷ t) = ground arith
text_eq_iff (a ∷ s) (b ∷ t) = ground (arith, text_eq_iff s t)

pub text_eq_refl : (s : Text) → text_eq s s ≡ true
text_eq_refl s = (text_eq_iff s s).1 refl

-- `strings.Contains(s, c)` and `strings.Count(s, c)` for a text `c` of one character.
abbrev pub has : ℕ → Text → Bool
has c [] = false
has c (a ∷ s) = (a == c) || has c s

abbrev pub count : ℕ → Text → ℕ
count c [] = 0
count c (a ∷ s) = (if a == c then 1 else 0) + count c s

pub count-append : (c : ℕ) (s t : Text) → count c (s ++ t) ≡ count c s + count c t
count-append c [] t = omega arith
count-append c (a ∷ s) t = omega (arith, count-append c s t)

pub has-count : (c : ℕ) (s : Text) → (has c s ≡ false) ↔ (count c s ≡ 0)
has-count c [] = ground arith
has-count c (a ∷ s) = ground (arith, has-count c s)

-- `strings.Index(s, c)`: the position of the first `c`.
abbrev pub index_of : ℕ → Text → Option ℕ
index_of c [] = none
index_of c (a ∷ s) = if a == c then some 0 else Option.map suc (index_of c s)

-- `strings.Contains(s, cc)`: is `c` there twice in a row.
abbrev pub has_pair : ℕ → Text → Bool
has_pair c [] = false
has_pair c (a ∷ []) = false
has_pair c (a ∷ b ∷ s) = ((a == c) && (b == c)) || has_pair c (b ∷ s)

abbrev prepend : ℕ → List Text → List Text
prepend a [] = (a ∷ []) ∷ []
prepend a (part ∷ parts) = (a ∷ part) ∷ parts

-- `strings.Split(s, c)`.
abbrev pub split : ℕ → Text → List Text
split c [] = [] ∷ []
split c (a ∷ s) = let rest = split c s in if a == c then [] ∷ rest else prepend a rest

-- The last of the parts, `parts[len(parts)-1]`; `split` never returns an empty list.
abbrev pub last_part : List Text → Text
last_part [] = []
last_part (part ∷ []) = part
last_part (part ∷ parts) = last_part parts

-- `strings.ToLower`, on ASCII.
abbrev pub to_lower : Text → Text
to_lower [] = []
to_lower (c ∷ s) = (if leb b'A' c && leb c b'Z' then c + 32 else c) ∷ to_lower s

-- `<` on strings.
abbrev pub text_lt : Text → Text → Bool
text_lt s [] = false
text_lt [] (b ∷ t) = true
text_lt (a ∷ s) (b ∷ t) = ltb a b || ((a == b) && text_lt s t)

-- A text stands in a list.
abbrev pub Among : Text → List Text → Type 0
Among k [] = ⊥
Among k (j ∷ l) = (k ≡ j) ⊎ Among k l
