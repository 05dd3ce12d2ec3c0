-- ===== src/Database/Conformance/Listed.antt =====
-- `StorageListTest` of storageTest.go: lists of objects by patterns, with a POST on the way. `now
-- n` is the clock's reading at the n-th write, and `post` what the server's router does with a
-- POST of a document to a path: the status and the bytes of the response.
use ooo.Base.{ℕ, List, [], ◌∷◌, ◌++◌, Text, text_eq, codes, length, ◌==◌, if◌then◌else◌, ℤ, Bool}
use ooo.Meta.{Object, Codec}
use ooo.Memory.State.{Call, ◌>>=◌, ◌>>◌, pure}
use ooo.Database.{Database}
use ooo.Database.Conformance.{require, require_no_error, require_object}
use ooo.Database.Conformance.Numbered.{require_list}

module _ {S : Type 0} (codec : Codec) (same : Text → Text → Bool) (db : Database S)
    (post : Text → Text → Call S (ℕ × Text)) (now : ℕ → ℤ) (body update : Text) where
  -- The loop over the objects that were read.
  unfoldable pub check_objects : List Object → Call S (Unit {0})
  check_objects [] = pure tt
  check_objects (o ∷ objects) = do
    if text_eq o.index (codes "123") then require (same o.body body) else pure tt
    if text_eq o.index (codes "456") then require (same o.body update) else pure tt
    check_objects objects

  -- A write of a key, and the test of its answer.
  unfoldable pub set_indexed : ℕ → Text → Text → Text → Call S (Unit {0})
  set_indexed n path document index = do
    (key, err) ← db.set (now n) path document
    require_no_error err
    require (text_eq index key)

  -- A read of a pattern, and the test of the number of objects.
  unfoldable pub get_counted : Text → ℕ → Call S (List Object)
  get_counted path n = do
    (bytes, err) ← db.get path
    require_no_error err
    objects ← require_list codec bytes
    require (n == length objects)
    pure objects

  -- `StorageListTest`
  unfoldable pub storage_list_test : Call S (Unit {0})
  unfolding check_objects set_indexed get_counted
  storage_list_test = do
    db.clear
    set_indexed 0 (codes "test/123") body (codes "123")
    set_indexed 1 (codes "test/456") update (codes "456")
    objects ← get_counted (codes "test/*") 2
    check_objects objects
    (data1, err1) ← db.get (codes "test/123")
    require_no_error err1
    (data2, err2) ← db.get (codes "test/456")
    require_no_error err2
    obj1 ← require_object codec data1
    obj2 ← require_object codec data2
    require (same obj1.body body)
    require (same obj2.body update)
    (keys, err) ← db.keys
    require_no_error err
    require (text_eq (codes "{\"keys\":[\"test/123\",\"test/456\"]}") keys)
    (status, answer) ← post (codes "test/*") body
    require (200 == status)
    posted ← require_object codec answer
    _ ← get_counted (codes "test/*") 3
    err' ← db.del (codes "test/" ++ posted.index)
    require_no_error err'
    _ ← get_counted (codes "test/*") 2
    set_indexed 2 (codes "test/glob1/glob123") body (codes "glob123")
    set_indexed 3 (codes "test/glob2/glob456") update (codes "glob456")
    _ ← get_counted (codes "test/*/*") 2
    set_indexed 4 (codes "test/1/glob/g123") body (codes "g123")
    set_indexed 5 (codes "test/2/glob/g456") update (codes "g456")
    _ ← get_counted (codes "test/*/glob/*") 2
    set_indexed 6 (codes "test1") body (codes "test1")
    set_indexed 7 (codes "test2") update (codes "test2")
    _ ← get_counted (codes "*") 2
    err'' ← db.del (codes "*")
    require_no_error err''
    _ ← get_counted (codes "*") 0
    pure tt
