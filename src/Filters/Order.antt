-- ===== src/Filters/Order.antt =====
-- Which filter a path gets, and what static mode lets through (filters.go).
use ooo.Base.{
  Bool, true, false, List, [], ◌∷◌, ◌++◌, none, some, Text, ◌≡◌, refl, ◌∙◌, ◌≢◌, ◌↔◌, arith,
}
use ooo.Key.{match}
use ooo.Meta.{Codec}
use ooo.Filters.{
  ok, err, Filter, Hook, Filters, first_match, check, check_static, check_hooks, undefined_route,
  open_filter, noop_filter, noop_hook,
}

module _ {ℓ} {A : Type ℓ} (path_of : A → Text) (path : Text) where
  first_match-one :
      (f : A) → match (path_of f) path ≡ true → first_match path_of path (f ∷ []) ≡ some f
  unfolding first_match
  first_match-one f m = ground arith

  -- The items are tried in the order in which they were added.
  pub first_match-append :
      (r s : List A)
      → first_match path_of path (r ++ s)
        ≡ elim (first_match path_of path r) [ none ↦ first_match path_of path s | some f ↦ some f ]
  unfolding first_match
  first_match-append [] s = refl
  first_match-append (f ∷ r) s = ground (arith, first_match-append r s)

  first_match-added :
      (r : List A) (f : A)
      → first_match path_of path r ≡ none
      → match (path_of f) path ≡ true
      → first_match path_of path (r ++ f ∷ []) ≡ some f
  first_match-added r f h m = first_match-append r (f ∷ []) ∙ rw h (first_match-one f m)

module _ (codec : Codec) (path body : Text) where
  -- A filter that is added later does not change what an earlier one decides.
  pub check-append :
      (static : Bool) (r s : List Filter)
      → first_match (λ f. f.path) path r ≢ none
      → check codec path body static (r ++ s) ≡ check codec path body static r
  unfolding check
  check-append static r s h = ground (arith, first_match-append (λ (f : Filter). f.path) path r s)

  -- `checkStatic` refuses a path exactly when it is static mode and no filter matches. `check`
  -- refuses what `checkStatic` refuses, and else decides as without static mode.
  check_static_iff :
      (static : Bool) (r : List Filter)
      → ((check_static path static r ≡ err (undefined_route path))
          ↔ ((static ≡ true) × (first_match (λ f. f.path) path r ≡ none)))
        × (check codec path body static r ≡ elim (check_static path static r) [
          | err e ↦ err e
          | ok _ ↦ check codec path body false r
        ])
  unfolding check check_static
  check_static_iff static r = ground arith

  -- After `OpenFilter` of a name, a path that matches it passes the three checks, whatever the
  -- mode, and the data that is read or written is its encoding, if no earlier filter matches the
  -- path and the encoding does not fail and is not empty.
  pub open_filter_lem :
      (name bytes : Text) (static : Bool) (f : Filters)
      → match name path ≡ true
      → first_match (λ g. g.path) path f.write ≡ none
      → first_match (λ g. g.path) path f.read ≡ none
      → first_match (λ g. g.path) path f.delete ≡ none
      → codec.encode_raw body ≡ some bytes
      → bytes ≢ []
      → (check codec path body static (open_filter name f).write ≡ ok bytes)
        × (check codec path body static (open_filter name f).read ≡ ok bytes)
        × (check_hooks path static (open_filter name f).delete ≡ ok tt)
  unfolding check check_hooks open_filter
  open_filter_lem name bytes static f m w r d e n = ground (
    arith,
    first_match-added (λ (g : Filter). g.path) path f.write
        (record { path = name; apply = noop_filter }) w m,
    first_match-added (λ (g : Filter). g.path) path f.read
        (record { path = name; apply = noop_filter }) r m,
    first_match-added (λ (g : Hook). g.path) path f.delete
        (record { path = name; apply = noop_hook }) d m,
  )
