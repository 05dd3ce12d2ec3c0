-- ===== src/Memory/Lists.antt =====
-- The lists that memory.go's reads return: which objects, in which order, and how many.
use ooo.Base.{
  ℕ, ◌≤◌, ◌<◌, Bool, true, ◌&&◌, List, [], ◌++◌, none, Text, ◌≡◌, ◌≢◌, sym, subst, ◌⊎◌, ◌↔◌, arith,
  ℤ, pos, has, length, take, ◌≤ℤ◌, length-take-le, length-take_full, drop, take-append-drop,
  and_inv, and_intro, Among,
}
use ooo.Key.{match}
use ooo.Key.Path.{star}
use ooo.Meta.{Object, Codec, sort, sort_asc, sort_desc}
use ooo.Memory.Table.{Table, load, keys_if}
use ooo.Memory.Reads.{
  objects_if, first_n, get_ordered, get, get_descending, get_n, get_n_ascending, get_n_range,
  keys_range, in_time, encoded, key_time,
}
use ooo.Memory.Entries.{IsWell}
use ooo.Memory.Listed.{IsListing, sort-IsListing, Among-keys_if, keys_if-Among}
use ooo.Memory.Sorted.{
  IsSorted, sort-IsSorted, Order, ascending, descending, Order-asym, Order-trans, cut-take,
  IsOldestFirst, IsNewestFirst, IsSorted-IsOldestFirst, IsSorted-IsNewestFirst,
}

in_time_iff :
    (from to : ℤ) (key : Text)
    → (in_time from to key ≡ true) ↔ ((from ≤ℤ key_time key) × (key_time key ≤ℤ to))
unfolding in_time
in_time_iff from to key = ground arith

within_iff :
    (path : Text) (from to : ℤ) (key : Text)
    → ((match path key && in_time from to key) ≡ true)
      ↔ ((match path key ≡ true) × (from ≤ℤ key_time key) × (key_time key ≤ℤ to))
within_iff path from to key = (
  λ e. let (m, t) = and_inv _ _ e in let (lo, hi) = (in_time_iff from to key).0 t in (m, lo, hi),
  λ r. and_intro r.0 ((in_time_iff from to key).1 (r.1, r.2)),
)

sorted :
    {less : Object → Object → Bool} (order : Order less) (xs : List Object)
    → IsSorted less (sort less xs)
sorted {less} order = sort-IsSorted less (Order-asym order) (Order-trans order)

module _ (codec : Codec) where
  -- The first `n` of the objects under the keys that are wanted, in an order, with what is left out:
  -- it comes after them, and there are `n` of them unless nothing is left out.
  pub record AreFirst (wanted : Text → Type 0) (mem : Table Text) (n : ℕ)
      (IsOrdered : List Object → Type 0) (res : List Object) : Type 0 where
    pub rest : List Object
    pub listing : IsListing codec wanted mem (res ++ rest)
    pub ordered : IsOrdered (res ++ rest)
    pub bounded : length res ≤ n
    pub full : (rest ≡ []) ⊎ (length res ≡ n)

  module _ (mem : Table Text) (well : IsWell codec mem) where
    matching-IsListing :
        (less : Object → Object → Bool) (path : Text)
        → IsListing codec
            (λ k. match path k ≡ true)
            mem
            (sort less (objects_if codec (match path) mem))
    matching-IsListing less path =
        sort-IsListing codec less (λ k. match path k ≡ true) (match path) mem
          (λ k. (λ e. e, λ e. e)) well

    -- A read of a pattern with a star, of a map that holds each key once and whose values decode
    -- to objects that name their keys, returns the encoding of a list of exactly the objects that
    -- the map holds under the keys that match, each once: the oldest first with `Get`, the newest
    -- first with `GetDescending`.
    pub get_lem :
        (path : Text)
        → has star path ≡ true
        → (up : List Object) × (down : List Object) × (get codec path mem
            ≡ encoded (codec.encode_list up))
          × (get_descending codec path mem ≡ encoded (codec.encode_list down))
          × IsListing codec (λ k. match path k ≡ true) mem up
          × IsListing codec (λ k. match path k ≡ true) mem down
          × IsOldestFirst up
          × IsNewestFirst down
    unfolding get get_descending get_ordered
    get_lem path h = (
      sort sort_asc (objects_if codec (match path) mem),
      sort sort_desc (objects_if codec (match path) mem),
      rw h,
      rw h,
      matching-IsListing sort_asc path,
      matching-IsListing sort_desc path,
      IsSorted-IsOldestFirst _ (sorted ascending _),
      IsSorted-IsNewestFirst _ (sorted descending _),
    )

    first_n-AreFirst :
        (less : Object → Object → Bool) (path : Text) (n : ℕ) (wanted : Text → Type 0)
        (IsOrdered : List Object → Type 0) (p : Text → Bool)
        → has star path ≡ true
        → 0 < n
        → IsListing codec wanted mem (sort less (objects_if codec p mem))
        → IsOrdered (sort less (objects_if codec p mem))
        → (res : List Object) × (first_n codec less path (pos n) p mem ≡ (res, none))
          × AreFirst wanted mem n IsOrdered res
    unfolding first_n
    first_n-AreFirst less path n wanted IsOrdered p h k listing ordered =
        let s = sort less (objects_if codec p mem) in
        let whole = sym (take-append-drop n s) in
        (
          take n s,
          ground (arith, cut-take n s),
          record {
            rest = drop n s;
            listing = subst (IsListing codec wanted mem) whole listing;
            ordered = subst IsOrdered whole ordered;
            bounded = length-take-le n s;
            full = length-take_full n s;
          },
        )

    -- A read of at most `n` objects, where `n` is positive and the path has a star, of a map that
    -- holds each key once and whose values decode to objects that name their keys, returns the
    -- first ones of exactly the objects that the map holds under the keys that match: `GetN` in
    -- the order from the newest, `GetNAscending` from the oldest, and `GetNRange` from the newest
    -- of those whose keys' last part decodes to a time in the range. What is left out comes after
    -- what is returned, and there are `n` of them unless nothing is left out.
    pub get_n_lem :
        (path : Text) (n : ℕ) (from to : ℤ)
        → has star path ≡ true
        → 0 < n
        → (newest : List Object) × (oldest : List Object) × (within : List Object) × (get_n codec
              path
              (pos n)
              mem
            ≡ (newest, none))
          × (get_n_ascending codec path (pos n) mem ≡ (oldest, none))
          × (get_n_range codec path (pos n) from to mem ≡ (within, none))
          × AreFirst (λ k. match path k ≡ true) mem n IsNewestFirst newest
          × AreFirst (λ k. match path k ≡ true) mem n IsOldestFirst oldest
          × AreFirst
              (λ k. (match path k ≡ true) × (from ≤ℤ key_time k) × (key_time k ≤ℤ to))
              mem
              n
              IsNewestFirst
              within
    unfolding get_n get_n_ascending get_n_range
    get_n_lem path n from to h k =
        let matching : Text → Type 0 = λ j. match path j ≡ true in
        let within : Text → Type 0 =
          λ j. (match path j ≡ true) × (from ≤ℤ key_time j) × (key_time j ≤ℤ to) in
        let in_range : Text → Bool = λ j. match path j && in_time from to j in
        let (newest, a, b) =
          first_n-AreFirst sort_desc path n matching IsNewestFirst (match path) h k
            (matching-IsListing sort_desc path) (IsSorted-IsNewestFirst _ (sorted descending _)) in
        let (oldest, c, d) =
          first_n-AreFirst sort_asc path n matching IsOldestFirst (match path) h k
            (matching-IsListing sort_asc path) (IsSorted-IsOldestFirst _ (sorted ascending _)) in
        let (ranged, e, f) =
          first_n-AreFirst sort_desc path n within IsNewestFirst in_range h k
            (sort-IsListing codec sort_desc within in_range mem (λ j. within_iff path from to j)
              well)
            (IsSorted-IsNewestFirst _ (sorted descending _)) in
        (newest, oldest, ranged, a, c, e, b, d, f)

keys_range-keys :
    (path : Text) (from to : ℤ) (mem : Table Text)
    → has star path ≡ true
    → from ≤ℤ to
    → keys_range path from to mem ≡ (keys_if (λ k. match path k && in_time from to k) mem, none)
unfolding keys_range
keys_range-keys path from to mem h le = ground arith

-- `KeysRange` of a pattern with a star and a range that is not empty returns the keys that are
-- there, match the pattern and whose last part decodes to a time in the range, and no others.
pub keys_range_lem :
    (path : Text) (from to : ℤ) (mem : Table Text) (key : Text)
    → has star path ≡ true
    → from ≤ℤ to
    → Among key (keys_range path from to mem).0 ↔ (
        (load key mem ≢ none)
        × (match path key ≡ true)
        × (from ≤ℤ key_time key)
        × (key_time key ≤ℤ to))
keys_range_lem path from to mem key h le = rw (keys_range-keys path from to mem h le) (
  λ a.
      let (l, q) = Among-keys_if _ key mem a in
      let (m, t) = and_inv _ _ q in let (lo, hi) = (in_time_iff from to key).0 t in (l, m, lo, hi),
  λ r. keys_if-Among _ key mem r.0 (and_intro r.1 ((in_time_iff from to key).1 (r.2, r.3))),
)
