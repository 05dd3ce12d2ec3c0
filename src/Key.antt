-- ===== src/Key.antt =====
-- key/key.go: the keys of the store, their glob patterns, and the timestamps in them.
pub mod Path
pub mod Hex
pub mod Glob
pub mod Search
pub mod Cut
pub mod Agree
pub mod Stamp
pub mod Matching
pub mod Built
use mathlib.Core.Option
use ooo.Base.{
  ℕ, Bool, true, false, not, ◌&&◌, ◌||◌, Option, none, some, List, [], ◌∷◌, ◌++◌, Text, text_eq,
  has, count, has_pair, leb, ◌==◌, if◌then◌else◌, ℤ, pos,
}
use Path.{star, slash, path_match}
use Hex.{format_int, parse_int}

-- `[a-zA-Z\*\d]`
unfoldable pub is_word : ℕ → Bool
is_word c =
    (leb b'a' c && leb c b'z')
    || (leb b'A' c && leb c b'Z')
    || (c == star)
    || (leb b'0' c && leb c b'9')

-- `[a-zA-Z\*\d\/]+[a-zA-Z\*\d]$`, after at least one character that the `+` took.
unfoldable pub ends_in_word : Text → Bool
ends_in_word [] = false
ends_in_word (c ∷ []) = is_word c
ends_in_word (c ∷ d ∷ s) = (is_word c || (c == slash)) && ends_in_word (d ∷ s)

-- `GlobRegex`: one word character; or a word character, one or more word characters and slashes,
-- and a word character.
unfoldable pub glob_regex : Text → Bool
glob_regex [] = false
glob_regex (c ∷ []) = is_word c
glob_regex (c ∷ d ∷ []) = false
glob_regex (c ∷ d ∷ e ∷ s) = is_word c && ((is_word d || (d == slash)) && ends_in_word (e ∷ s))

unfoldable pub is_valid : Text → Bool
is_valid key = if has_pair slash key || has_pair star key then false else glob_regex key

unfoldable pub match : Text → Text → Bool
match path key =
    if text_eq path key
    then true
    else if not (has star path)
    then false
    else elim (path_match path key) [
      | none ↦ false
      | some matched ↦ matched && (count slash path == count slash key)
    ]

unfoldable pub peer : Text → Text → Bool
unfolding match path_match
peer a b = match a b || match b a

-- What follows the last slash, all of the key if there is none.
unfoldable pub last_index : Text → Text
last_index [] = []
last_index (c ∷ s) = if has slash s then last_index s else if c == slash then s else c ∷ s

-- `strings.Replace(key, "/*", "/"+index, 1)`
unfoldable pub replace_glob : Text → Text → Text
replace_glob index [] = []
replace_glob index (c ∷ []) = c ∷ []
replace_glob index (c ∷ d ∷ s) =
    let rest = replace_glob index (d ∷ s) in
    if (c == slash) && (d == star) then slash ∷ (index ++ s) else c ∷ rest

-- `now` is the clock's reading.
unfoldable pub build : ℤ → Text → Text
build now key = if not (has star key) then key else replace_glob (format_int now) key

unfoldable pub decode : Text → ℤ
decode key = elim (parse_int key) [ none ↦ pos 0 | some time ↦ time ]

unfoldable pub contains : List Text → Text → Bool
unfolding peer
contains [] e = false
contains (a ∷ s) e = if peer a e then true else contains s e
