-- ===== src/Database/Conformance/Numbered.antt =====
-- The tests of storageTest.go that write numbered keys and read lists of them. `now` and `times`
-- are the clock's readings; the sleeps between writes have no other effect.
use ooo.Base.{
  ℕ, zero, suc, ◌-◌, Bool, false, List, [], ◌∷◌, ◌++◌, none, some, Text, text_eq, codes, length,
  ◌==◌, ℤ, pos, itoa,
}
use ooo.Meta.{Object, Codec}
use ooo.Memory.State.{returned, panicked, Call, ◌>>=◌, ◌>>◌, pure}
use ooo.Database.{Database}
use ooo.Database.Conformance.{require, require_no_error, require_object, item}

module _ {S : Type 0} where
  -- `meta.DecodeList` and `require.NoError`
  abbrev pub require_list : Codec → Text → Call S (List Object)
  require_list codec bytes s = elim (codec.decode_list bytes) [
    | none ↦ (panicked, s)
    | some l ↦ (returned l, s)
  ]

abbrev equal_ℤ : ℤ → ℕ → Bool
equal_ℤ (pos n) m = n == m
equal_ℤ (ℤ.negsuc n) m = false

abbrev pub numbered : ℕ → Text
numbered i = codes "test/" ++ itoa i

module _ {S : Type 0} (codec : Codec) (db : Database S) where
  -- The loop of `StorageGetNTest`, from the number `i` on: one write for each reading.
  unfoldable pub set_numbered : Text → ℕ → List ℤ → Call S (Unit {0})
  set_numbered body i [] = pure tt
  set_numbered body i (now ∷ times) = do
    (key, err) ← db.set now (numbered i) body
    require_no_error err
    require (text_eq (itoa i) key)
    set_numbered body (suc i) times

  -- `StorageGetNTest`, with as many writes as readings. Where `n` is 0 the test of the first list's
  -- length fails before the `n - 1` is used.
  unfoldable pub get_n_test : Text → List ℤ → Call S (Unit {0})
  unfolding set_numbered
  get_n_test body times = do
    db.clear
    set_numbered body 0 times
    let n = length times
    (descending, err) ← db.get_n (codes "test/*") (pos 1)
    require_no_error err
    require (1 == length descending)
    last ← item (length descending - 1) descending
    require (text_eq (itoa (n - 1)) last.index)
    first ← item 0 descending
    require (text_eq (numbered (n - 1)) first.path)
    (ascending, err') ← db.get_n_ascending (codes "test/*") (pos 1)
    require_no_error err'
    require (1 == length ascending)
    last' ← item (length ascending - 1) ascending
    require (text_eq (codes "0") last'.index)
    first' ← item 0 ascending
    require (text_eq (codes "test/0") first'.path)
    (default_bytes, err'') ← db.get (codes "test/*")
    require_no_error err''
    default ← require_list codec default_bytes
    oldest ← item 0 default
    require (text_eq (codes "0") oldest.index)
    (bytes, err''') ← db.get (codes "test/*")
    require_no_error err'''
    sorted ← require_list codec bytes
    oldest' ← item 0 sorted
    require (text_eq (codes "0") oldest'.index)
    (descending_bytes, err'''') ← db.get_descending (codes "test/*")
    require_no_error err''''
    reversed ← require_list codec descending_bytes
    newest ← item 0 reversed
    require (text_eq (itoa (n - 1)) newest.index)

  -- The loops of `StorageGetNRangeTest` and `StorageBatchSetTest`: `count` keys from `i` on.
  unfoldable pub set_created : Text → ℕ → ℕ → Call S (Unit {0})
  set_created body i zero = pure tt
  set_created body i (suc count) = do
    (key, err) ← db.set_with_meta (numbered i) body (pos i) (pos 0)
    require_no_error err
    require (text_eq (itoa i) key)
    set_created body (suc i) count

  -- `StorageGetNRangeTest`
  unfoldable pub get_n_range_test : Text → ℕ → Call S (Unit {0})
  unfolding set_created
  get_n_range_test body n = do
    db.clear
    set_created body 1 (n - 1)
    (_, err) ← db.set_with_meta (codes "test/0") body (pos 0) (pos 0)
    require_no_error err
    (objects, err') ← db.get_n_range (codes "test/*") (pos 1) (pos 0) (pos 1)
    require_no_error err'
    require (1 == length objects)
    first ← item 0 objects
    require (equal_ℤ first.created 1)
    require (text_eq (codes "1") first.index)
    require (text_eq (codes "test/1") first.path)

  -- The loops of `StorageBatchSetTest` that read the keys again.
  unfoldable pub get_numbered : Text → ℕ → ℕ → Call S (Unit {0})
  get_numbered body i zero = pure tt
  get_numbered body i (suc count) = do
    (bytes, err) ← db.get (numbered i)
    require_no_error err
    object ← require_object codec bytes
    require (text_eq body object.body)
    get_numbered body (suc i) count

  -- `StorageBatchSetTest`, with the document, the patch and the document that is expected of them.
  unfoldable pub batch_set_test : Text → Text → Text → ℤ → ℕ → Call S (Unit {0})
  unfolding set_created get_numbered
  batch_set_test body update expected now n = do
    db.clear
    set_created body 1 (n - 1)
    get_numbered body 1 (n - 1)
    (_, err) ← db.patch now (codes "test/*") update
    require_no_error err
    get_numbered expected 1 (n - 1)
