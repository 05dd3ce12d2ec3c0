-- ===== src/Key/Path.antt =====
-- Go's `filepath.Match` (Unix), which `key.Match` calls: a pattern with `*`, `?`, `[...]` and `\`
-- is matched chunk by chunk, from star to star, and a star takes no separator. `none` is
-- `ErrBadPattern`.
use ooo.Base.{
  ℕ, zero, suc, Bool, true, false, not, ◌&&◌, ◌||◌, Option, none, some, [], ◌∷◌, Text, has, leb,
  ◌==◌, if◌then◌else◌, is_empty, length, tail,
}

abbrev pub star : ℕ
star = b'*'

abbrev pub slash : ℕ
slash = b'/'

abbrev pub backslash : ℕ
backslash = 92

-- The leading stars: were there any, and what follows them.
unfoldable pub strip_stars : Text → Bool × Text
strip_stars [] = (false, [])
strip_stars (c ∷ p) =
    let rest = strip_stars p in if c == star then (true, rest.1) else (false, c ∷ p)

-- The text up to the next star that is neither escaped nor in a class, and the rest.
unfoldable pub split_chunk : Bool → Bool → Text → Text × Text
split_chunk escaped in_range [] = ([], [])
split_chunk escaped in_range (c ∷ p) =
    let in_range' =
      if escaped
      then in_range
      else if c == b'['
      then true
      else if c == b']'
      then false
      else in_range in
    let rest = split_chunk (not escaped && (c == backslash)) in_range' p in
    if not escaped && (not in_range && (c == star)) then ([], c ∷ p) else (c ∷ rest.0, rest.1)

get_esc : Text → Option (ℕ × Text)
get_esc [] = none
get_esc (c ∷ []) = none
get_esc (c ∷ d ∷ chunk) =
    if (c == b'-') || (c == b']')
    then none
    else if c == backslash
    then (if is_empty chunk then none else some (d, chunk))
    else some (c, d ∷ chunk)

-- One range of a class, `lo` or `lo-hi`.
class_range : Text → Option (ℕ × ℕ × Text)
unfolding get_esc
class_range chunk = elim (get_esc chunk) [
  | none ↦ none
  | some (lo, []) ↦ none
  | some (lo, d ∷ rest) ↦
      if d == b'-'
      then (elim (get_esc rest) [ none ↦ none | some (hi, after) ↦ some (lo, hi, after) ])
      else some (lo, lo, d ∷ rest)
]

-- The ranges up to the closing bracket: does one of them hold `r`, and what follows.
class_loop : ℕ → ℕ → Bool → Bool → Text → Option (Bool × Text)
class_loop zero r first found chunk = none
class_loop (suc f) r first found [] = none
class_loop (suc f) r first found (c ∷ chunk) = elim ((c == b']') && not first) [
  | true ↦ some (found, chunk)
  | false ↦ elim (class_range (c ∷ chunk)) [
    | none ↦ none
    | some (lo, hi, rest) ↦ class_loop f r false (found || (leb lo r && leb r hi)) rest
  ]
]

abbrev pub head_or : ℕ → Text → ℕ
head_or d [] = d
head_or d (c ∷ s) = c

-- `r` is the character under test, 0 once the match has failed.
class_item : Bool → Text → Text → Option (Bool × Text × Text)
unfolding class_loop class_range
class_item failed chunk s =
    let negated = head_or 0 chunk == b'^' in
    elim (class_loop (suc (length chunk)) (head_or 0 s) true false
      (if negated then tail chunk else chunk)) [
        | none ↦ none
        | some (found, rest) ↦
            some (failed || (if found then negated else not negated), rest, tail s)
      ]

abbrev pub literal_item : Bool → ℕ → Text → Text → Option (Bool × Text × Text)
literal_item failed c chunk s = some (failed || not (c == head_or 0 s), chunk, tail s)

escaped_item : Bool → Text → Text → Option (Bool × Text × Text)
escaped_item failed [] s = none
escaped_item failed (c ∷ chunk) s = literal_item failed c chunk s

-- One round of the loop of `matchChunk`: has the match failed, and what is left of chunk and name.
unfoldable pub chunk_item : Bool → ℕ → Text → Text → Option (Bool × Text × Text)
unfolding class_item escaped_item
chunk_item failed c chunk s =
    let failed' = failed || is_empty s in
    if c == b'['
    then class_item failed' chunk s
    else if c == b'?'
    then some (failed' || (head_or 0 s == slash), chunk, tail s)
    else if c == backslash
    then escaped_item failed' chunk s
    else literal_item failed' c chunk s

-- `none` is a bad pattern, `some none` no match, `some (some t)` a match that leaves `t`.
unfoldable pub match_chunk : ℕ → Bool → Text → Text → Option (Option Text)
match_chunk f failed [] s = some (if failed then none else some s)
match_chunk zero failed (c ∷ chunk) s = none
match_chunk (suc f) failed (c ∷ chunk) s = elim (chunk_item failed c chunk s) [
  | none ↦ none
  | some (failed', chunk', s') ↦ match_chunk f failed' chunk' s'
]

-- A chunk consumes at least one character of itself a round, so its length is fuel enough.
unfoldable pub chunk_at : Text → Text → Option (Option Text)
unfolding match_chunk chunk_item
chunk_at chunk s = match_chunk (length chunk) false chunk s

-- A match serves if it ends the name, or more of the pattern is to come.
unfoldable pub accept : Text → Option Text → Bool
accept rest none = false
accept rest (some t) = is_empty t || not (is_empty rest)

-- The loop that lets a star skip the name's characters, up to a separator.
unfoldable pub skip_loop : Text → Text → Text → Option (Option Text)
skip_loop chunk rest [] = some none
skip_loop chunk rest (n ∷ name) = elim (n == slash) [
  | true ↦ some none
  | false ↦ elim (chunk_at chunk name) [
    | none ↦ none
    | some found ↦ elim (accept rest found) [
      | true ↦ some found
      | false ↦ skip_loop chunk rest name
    ]
  ]
]

-- The chunk at the name's start, or further on behind a star.
unfoldable pub place : Bool → Text → Text → Text → Option (Option Text)
unfolding chunk_at accept skip_loop
place starred chunk rest name = elim (chunk_at chunk name) [
  | none ↦ none
  | some found ↦ elim (accept rest found) [
    | true ↦ some found
    | false ↦ if starred then skip_loop chunk rest name else some none
  ]
]

-- After a mismatch the rest of the pattern is only checked.
unfoldable pub check_rest : ℕ → Text → Option Bool
check_rest f [] = some false
check_rest zero (c ∷ p) = none
check_rest (suc f) (c ∷ p) =
    let cut = split_chunk false false (strip_stars (c ∷ p)).1 in
    elim (chunk_at cut.0 []) [ none ↦ none | some _ ↦ check_rest f cut.1 ]

-- What follows the search for a chunk; `resume` goes on with the rest of the pattern.
unfoldable pub after_place : ℕ → Text → (Text → Option Bool) → Option (Option Text) → Option Bool
unfolding check_rest split_chunk strip_stars chunk_at
after_place f rest resume none = none
after_place f rest resume (some none) = check_rest f rest
after_place f rest resume (some (some t)) = resume t

unfoldable pub match_loop : ℕ → Text → Text → Option Bool
match_loop f [] name = some (is_empty name)
match_loop zero (c ∷ p) name = none
match_loop (suc f) (c ∷ p) name =
    let starred = (strip_stars (c ∷ p)).0 in
    let cut = split_chunk false false (strip_stars (c ∷ p)).1 in
    elim (starred && is_empty cut.0) [
      | true ↦ some (not (has slash name))
      | false ↦ after_place f cut.1 (match_loop f cut.1) (place starred cut.0 cut.1 name)
    ]

-- Each round uses up a character of the pattern.
unfoldable pub path_match : Text → Text → Option Bool
unfolding match_loop split_chunk strip_stars place after_place
path_match pattern name = match_loop (length pattern) pattern name
