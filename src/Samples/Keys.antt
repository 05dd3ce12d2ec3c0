-- ===== src/Samples/Keys.antt =====
-- Runs of key/key.go, and its theorems at concrete keys.
use ooo.Base.{true, false, none, some, codes, ◌++◌, ◌≡◌, refl, ◌↔◌, arith, pos}
use ooo.Key.{glob_regex, is_valid, match, build, decode, last_index}
use ooo.Key.Path.{path_match}
use ooo.Key.Glob.{Glob}
use ooo.Key.Matching.{match_iff, is_valid_iff, IsKey}
use ooo.Key.Stamp.{build_lem}

path_match_class : path_match (codes "a[b-d]?\\*x*/y") (codes "acz*xqq/y") ≡ some true
unfolding path_match
path_match_class = refl

path_match_bad : path_match (codes "a[b-") (codes "ac") ≡ none
unfolding path_match
path_match_bad = refl

path_match_stars : path_match (codes "*/*b/c") (codes "zz/abbb/c") ≡ some true
unfolding path_match
path_match_stars = refl

two_characters : is_valid (codes "ab") ≡ false
unfolding is_valid glob_regex
two_characters = refl

match_iff_example :
    (match (codes "game/*/*") (codes "game/1/x") ≡ true)
    ↔ Glob (codes "game/*/*") (codes "game/1/x")
match_iff_example = match_iff (codes "game/*/*") (codes "game/1/x") (ground arith)

is_valid_iff_example : (is_valid (codes "game/*") ≡ true) ↔ IsKey (codes "game/*")
is_valid_iff_example = is_valid_iff (codes "game/*")

build_lem_example :
    (match
        (codes "game" ++ codes "/*")
        (build (pos 1700000000000000000) (codes "game" ++ codes "/*"))
      ≡ true)
    × (decode (last_index (build (pos 1700000000000000000) (codes "game" ++ codes "/*")))
        ≡ pos 1700000000000000000)
build_lem_example = build_lem (codes "game") 1700000000000000000 refl (ground arith) (omega arith)
