-- ===== src/Filters.antt =====
-- filters.go: the filters of reads, writes and deletions, and the hooks after writes.
pub mod Order
use ooo.Base.{
  Bool, true, false, ◌||◌, List, [], ◌∷◌, ◌++◌, Option, none, some, Text, text_eq, codes, is_empty,
  if◌then◌else◌,
}
use ooo.Key.{match}
use ooo.Meta.{Codec}

-- A value, or an error with its message.
pub data Result {ℓ} (A : Type ℓ) : Type ℓ where
  ok : A → Result A
  err : Text → Result A

-- `filter`, `hook` and `watch`; what a watch does when it is called is no part of the model.
pub record Filter : Type 0 where
  pub path : Text
  pub apply : Text → Text → Result Text

pub record Hook : Type 0 where
  pub path : Text
  pub apply : Text → Result (Unit {0})

pub record Watch : Type 0 where
  pub path : Text

pub record Filters : Type 0 where
  pub write : List Filter
  pub read : List Filter
  pub delete : List Hook
  pub after_write : List Watch

abbrev pub delete_filter : Text → (Text → Result (Unit {0})) → Filters → Filters
delete_filter path apply f = record f {
  delete = f.delete ++ record { path = path; apply = apply } ∷ [];
}

abbrev pub write_filter : Text → (Text → Text → Result Text) → Filters → Filters
write_filter path apply f = record f {
  write = f.write ++ record { path = path; apply = apply } ∷ [];
}

abbrev pub add_after_write : Text → Filters → Filters
add_after_write path f = record f { after_write = f.after_write ++ record { path = path } ∷ [] }

abbrev pub read_filter : Text → (Text → Text → Result Text) → Filters → Filters
read_filter path apply f = record f { read = f.read ++ record { path = path; apply = apply } ∷ [] }

abbrev pub noop_hook : Text → Result (Unit {0})
noop_hook index = ok tt

abbrev pub noop_filter : Text → Text → Result Text
noop_filter index body = ok body

unfoldable pub open_filter : Text → Filters → Filters
open_filter name f =
    delete_filter name noop_hook (read_filter name noop_filter (write_filter name noop_filter f))

-- The loop that the checks share: the first item whose path matches.
unfoldable pub first_match {ℓ} : {A : Type ℓ} → (A → Text) → Text → List A → Option A
first_match path_of path [] = none
first_match path_of path (f ∷ r) =
    if text_eq (path_of f) path || match (path_of f) path
    then some f
    else first_match path_of path r

abbrev pub undefined_route : Text → Text
undefined_route path = codes "route not defined, static mode, key:" ++ path

-- `watchers.check`: the watch that is called with the path.
unfoldable pub check_watchers : Text → List Watch → Option Watch
check_watchers path r = first_match (λ f. f.path) path r

unfoldable pub check_hooks : Text → Bool → List Hook → Result (Unit {0})
check_hooks path static r = elim (first_match (λ f. f.path) path r) [
  | none ↦ if static then err (undefined_route path) else ok tt
  | some f ↦ f.apply path
]

unfoldable pub check_static : Text → Bool → List Filter → Result (Unit {0})
check_static path static r = elim (first_match (λ f. f.path) path r) [
  | none ↦ if static then err (undefined_route path) else ok tt
  | some f ↦ ok tt
]

-- The text of a `Marshal` error.
abbrev pub marshal_error : Text
marshal_error = codes "json: error calling MarshalJSON"

module _ (codec : Codec) where
  -- What is made of a filter's result.
  unfoldable pub filtered : Text → Result Text → Result Text
  filtered path (err e) = err e
  filtered path (ok body) = elim (codec.encode_raw body) [
    | none ↦ err marshal_error
    | some bytes ↦
        if is_empty bytes then err (codes "invalid filter result, key:" ++ path) else ok bytes
  ]

  unfoldable pub check : Text → Text → Bool → List Filter → Result Text
  unfolding filtered
  check path body static r = elim (first_match (λ f. f.path) path r) [
    | none ↦ if static then err (undefined_route path) else ok body
    | some f ↦ filtered path (f.apply path body)
  ]
