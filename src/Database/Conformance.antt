-- ===== src/Database/Conformance.antt =====
-- The tests of storageTest.go that a storage is to pass. They are functions of the storage: a
-- `require` that fails ends the test, as a panic. The constants of the tests are arguments, and so
-- is `same`, the comparison of documents (jsondiff) that answers true on a full match.
pub mod Passes
pub mod Rounds
pub mod Numbered
pub mod Listed
pub mod Times
pub mod Ranges
pub mod Decimals
pub mod Rising
pub mod Numbers
pub mod Loops
pub mod Batches
pub mod Counting
pub mod Lasts
use ooo.Base.{
  ℕ, zero, suc, length, Bool, true, false, not, List, [], ◌∷◌, ◌++◌, Option, none, some, Text,
  text_eq, codes, is_empty, ◌==◌, if◌then◌else◌, ℤ, pos, negsuc,
}
use ooo.Key.{build, decode}
use ooo.Meta.{Object, Codec}
use ooo.Memory.State.{Error, Outcome, returned, panicked, Call, Reply, ◌>>=◌, ◌>>◌, pure}
use ooo.Database.{Database}

module _ {S : Type 0} where
  -- `require`
  abbrev pub require : Bool → Call S (Unit {0})
  require true s = (returned tt, s)
  require false s = (panicked, s)

  -- `require.NoError`
  abbrev pub require_no_error : Option Error → Call S (Unit {0})
  require_no_error none s = (returned tt, s)
  require_no_error (some _) s = (panicked, s)

  -- `meta.Decode` and `require.NoError`
  abbrev pub require_object : Codec → Text → Call S Object
  require_object codec bytes s = elim (codec.decode_object bytes) [
    | none ↦ (panicked, s)
    | some o ↦ (returned o, s)
  ]

  -- An element of a slice; an index out of range is a panic.
  abbrev pub item {ℓ} : {A : Type ℓ} → ℕ → List A → Call S A
  item i [] s = (panicked, s)
  item zero (x ∷ xs) s = (returned x, s)
  item (suc i) (x ∷ xs) s = item i xs s

abbrev is_zero : ℤ → Bool
is_zero (pos n) = n == 0
is_zero (negsuc n) = false

module _ {S : Type 0} (codec : Codec) (same : Text → Text → Bool) (db : Database S) where
  -- `StorageObjectTest`, at the clock's readings of its two writes.
  unfoldable pub storage_object_test : ℤ → ℤ → Text → Text → Call S (Unit {0})
  storage_object_test now later body update = do
    db.clear
    (index, err) ← db.set now (codes "test") body
    require_no_error err
    require (not (is_empty index))
    (bytes, _) ← db.get (codes "test")
    object ← require_object codec bytes
    require (same object.body body)
    require (is_zero object.updated)
    (index', err') ← db.set later (codes "test") update
    require_no_error err'
    require (not (is_empty index'))
    (bytes', err'') ← db.get (codes "test")
    require_no_error err''
    object' ← require_object codec bytes'
    require (same object'.body update)
    err''' ← db.del (codes "test")
    require_no_error err'''
    (raw, _) ← db.get (codes "test")
    require (is_empty raw)

  -- An iteration of `StorageSetGetDelTest`, with the clock's readings in `Build` and in `Set`.
  unfoldable pub set_get_del_round : Text → ℤ → ℤ → Call S (Unit {0})
  set_get_del_round body built now = do
    let key = build built (codes "test/*")
    (_, err) ← db.set now (codes "test/" ++ key) body
    require_no_error err
    (fetched, err') ← db.get (codes "test/" ++ key)
    require_no_error err'
    decoded ← require_object codec fetched
    require (same decoded.body body)
    err'' ← db.del (codes "test/" ++ key)
    require_no_error err''
    (result, err''') ← db.get (codes "test/*")
    require_no_error err'''
    require (text_eq result (codes "[]"))

  -- `StorageSetGetDelTest`: one round for each pair of readings.
  unfoldable pub set_get_del_test : Text → List (ℤ × ℤ) → Call S (Unit {0})
  unfolding set_get_del_round
  set_get_del_test body [] = pure tt
  set_get_del_test body ((built, now) ∷ rounds) =
      set_get_del_round body built now >> set_get_del_test body rounds

module _ {S : Type 0} (db : Database S) where
  -- The loop of `StorageKeysRangeTest`, with `first` so far, and the readings in `Build` and `Set`.
  unfoldable pub build_keys : Text → Text → List (ℤ × ℤ) → Call S Text
  build_keys body first [] = pure first
  build_keys body first ((built, now) ∷ readings) = do
    let path = build built (codes "test/*")
    (key, err) ← db.set now path body
    let first' = if is_empty first then key else first
    require_no_error err
    require (text_eq path (codes "test/" ++ key))
    build_keys body first' readings

  -- `StorageKeysRangeTest`, with as many writes as readings.
  unfoldable pub keys_range_test : Text → List (ℤ × ℤ) → Call S (Unit {0})
  unfolding build_keys
  keys_range_test body readings = do
    db.clear
    first ← build_keys body [] readings
    (keys, err) ← db.keys_range (codes "test/*") (pos 0) (decode first)
    require_no_error err
    require (1 == length keys)
    key ← item 0 keys
    require (text_eq (codes "test/" ++ first) key)
