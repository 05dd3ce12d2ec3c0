-- ===== src/Server/Rest/Stored.antt =====
-- What the requests that rest.go accepts do to the storage, and what a later read answers.
use ooo.Base.{
  ℕ, true, false, [], ◌∷◌, ◌++◌, none, some, Text, text_eq_refl, pos, ◌≡◌, ◌∙◌, ap, sym, subst,
  arith, ℤ, codes, has,
}
use ooo.Key.{match, is_valid, last_index, build}
use ooo.Key.Path.{star, slash}
use ooo.Key.Stamp.{build-prefix}
use ooo.Key.Hex.{format_int}
use ooo.Key.Built.{build-is_valid}
use ooo.Meta.{Codec, IsCodec, empty_object}
use ooo.Memory.Table.{Table, load}
use ooo.Memory.State.{Db, Outcome, returned, IsStarted, not_found}
use ooo.Memory.Reads.{get}
use ooo.Memory.Writes.{set, del}
use ooo.Memory.Effects.{stores, set-returned, del-returned}
use ooo.Memory.Contents.{written, set-get, load-del}
use ooo.Filters.{Filter, Hook, ok, first_match, check, check_static, check_hooks}
use ooo.Messages.{Wire, decode_reader}
use ooo.Stream.{refresh}
use ooo.Stream.Refresh.{refresh-body}
use ooo.Server.{Server, fetch, filtered_read, get_filtered_data}
use ooo.Server.Rest.{
  Request, Response, text, storage_error, is_writable, write_request, publish, republish, read,
  unpublish,
}
use ooo.Server.Rest.Bodies.{is_writable-is_valid, decode_reader-not_empty, check-not_empty}

-- The response to a write that went well.
abbrev pub index_response : Text → Response
index_response index = record {
  status = 200;
  body = text (codes "{\"index\":\"" ++ (index ++ codes "\"}"));
}

module _ (codec : Codec) (laws : IsCodec codec) (wire : Wire) where
  pub write_request-set :
      (key_of : Text → Text) (now : ℤ) (r : Request) (app : Server) (event bytes : Text)
      → r.authorized ≡ true
      → is_writable r.key ≡ true
      → decode_reader wire r.body ≡ some event
      → check codec (key_of r.key) event app.static app.filters.write ≡ ok bytes
      → stores (key_of r.key) bytes ≡ true
      → IsStarted app.storage
      → ((write_request codec wire key_of (set codec now) r app).0
          ≡ returned (index_response (last_index (key_of r.key))))
        × ((write_request codec wire key_of (set codec now) r app).1.storage
            ≡ (set codec now (key_of r.key) bytes app.storage).1)
  unfolding write_request
  write_request-set key_of now r app event bytes a w d c s h =
      let ret = set-returned codec now (key_of r.key) bytes app.storage h in
      (ground arith, ground arith)

  -- What a `Set` that went well leaves under its key, and the response that it gets.
  abbrev pub Stored : ℤ → Text → Text → Server → Outcome Response × Server → Type 0
  Stored now key bytes app r =
      (r.0 ≡ returned (index_response (last_index key)))
      × (codec.decode_object (get codec key r.1.storage.mem).0
          ≡ some (written codec laws app.storage.mem key bytes now))

  write_request-Stored :
      (key_of : Text → Text) (now : ℤ) (r : Request) (app : Server) (event bytes : Text)
      → r.authorized ≡ true
      → is_writable r.key ≡ true
      → decode_reader wire r.body ≡ some event
      → check codec (key_of r.key) event app.static app.filters.write ≡ ok bytes
      → is_valid (key_of r.key) ≡ true
      → has star (key_of r.key) ≡ false
      → codec.is_json bytes ≡ true
      → IsStarted app.storage
      → Stored now (key_of r.key) bytes app (write_request codec wire key_of (set codec now) r app)
  write_request-Stored key_of now r app event bytes a w d c v n j h =
      let not_empty =
        check-not_empty codec (key_of r.key) event bytes app.static app.filters.write
          (decode_reader-not_empty wire r.body event d) c in
      let s : stores (key_of r.key) bytes ≡ true = ground arith in
      let (ret, st) = write_request-set key_of now r app event bytes a w d c s h in
      (
        ret,
        ap (λ db. codec.decode_object (get codec (key_of r.key) db.mem).0) st
            ∙ (set-get codec laws now (key_of r.key) bytes (key_of r.key) app.storage s j h).1,
      )

  -- An authorized PUT of a body under a key without a star that may be written, on a started
  -- storage, where the write filter makes the JSON `bytes` of the body: the answer is 200 with the
  -- last part of the key, and then `Get` of the key returns an object with these bytes, this key
  -- and the times of `Peek`.
  republish_lem :
      (now : ℤ) (r : Request) (app : Server) (event bytes : Text)
      → r.authorized ≡ true
      → is_writable r.key ≡ true
      → has star r.key ≡ false
      → decode_reader wire r.body ≡ some event
      → check codec r.key event app.static app.filters.write ≡ ok bytes
      → codec.is_json bytes ≡ true
      → IsStarted app.storage
      → Stored now r.key bytes app (republish codec wire now r app)
  unfolding republish
  republish_lem now r app event bytes a w n d c j h =
      write_request-Stored (λ key. key) now r app event bytes a w d c (is_writable-is_valid r.key w)
        n j h

  -- An authorized POST of a body to a pattern `prefix/*` that may be written, with no star in the
  -- prefix, on a started storage, where the write filter makes the JSON `bytes` of the body: the
  -- answer is 200 with the last part of the new key, which is `prefix/` and the time in
  -- hexadecimal, and then `Get` of the new key returns an object with these bytes, this key and
  -- the times of `Peek`.
  pub publish_lem :
      (prefix : Text) (n : ℕ) (now : ℤ) (r : Request) (app : Server) (event bytes : Text)
      → r.authorized ≡ true
      → r.key ≡ prefix ++ codes "/*"
      → has star prefix ≡ false
      → is_writable r.key ≡ true
      → decode_reader wire r.body ≡ some event
      → check codec (prefix ++ slash ∷ format_int (pos n)) event app.static app.filters.write
        ≡ ok bytes
      → codec.is_json bytes ≡ true
      → IsStarted app.storage
      → Stored now
          (prefix ++ slash ∷ format_int (pos n))
          bytes
          app
          (publish codec wire (pos n) now r app)
  unfolding publish
  publish_lem prefix n now r app event bytes a k s w d c j h =
      let e : build (pos n) r.key ≡ prefix ++ slash ∷ format_int (pos n) =
        ap (build (pos n)) k ∙ build-prefix prefix n s in
      let (v, t) =
        build-is_valid prefix n s
          (subst (λ x. is_valid x ≡ true) k (is_writable-is_valid r.key w)) in
      subst
        (λ x.
          Stored now x bytes app (write_request codec wire (build (pos n)) (set codec now) r app))
        e
        (write_request-Stored (build (pos n)) now r app event bytes a w d
          (subst (λ x. check codec x event app.static app.filters.write ≡ ok bytes) (sym e) c)
          (subst (λ x. is_valid (build (pos n) x) ≡ true) (sym k) v)
          (subst (λ x. has star (build (pos n) x) ≡ false) (sym k) t) j h)

get-missing :
    (codec : Codec) (key : Text) (mem : Table Text)
    → has star key ≡ false
    → load key mem ≡ none
    → (get codec key mem).0 ≡ []
unfolding get
get-missing codec key mem n m = ground arith

read-missing :
    (codec : Codec) (now : ℤ) (r : Request) (app : Server)
    → r.authorized ≡ true
    → is_valid r.key ≡ true
    → has star r.key ≡ false
    → app.static ≡ false
    → first_match (λ (f : Filter). f.path) r.key app.filters.read ≡ none
    → load r.key app.storage.mem ≡ none
    → (read codec now r app).0
      ≡ returned (record { status = 404; body = text (codes "ooo: empty key") })
unfolding read fetch check_static
read-missing codec now r app a v n s f m =
    let e : filtered_read codec app r.key ≡ some empty_object =
      unfold get_filtered_data check in
      ground (arith, get-missing codec r.key app.storage.mem n m) in
    let b : (refresh r.key (filtered_read codec app r.key) now app.stream).0.body ≡ empty_object =
      refresh-body r.key (filtered_read codec app r.key) now app.stream ∙ rw e in
    ground (arith, text_eq_refl empty_object)

load-del_self : (key : Text) (db : Db) → load key (del key db).1.mem ≡ none
load-del_self key db =
    let m : match key key ≡ true = unfold match in rw text_eq_refl in load-del key key db ∙ rw m

unpublish-state :
    (r : Request) (app : Server)
    → r.authorized ≡ true
    → is_valid r.key ≡ true
    → first_match (λ (f : Hook). f.path) r.key app.filters.delete ≡ none
    → app.static ≡ false
    → IsStarted app.storage
    → (unpublish r app).1 ≡ record app { storage = (del r.key app.storage).1 }
unfolding unpublish check_hooks
unpublish-state r app a v f s h = ground (arith, del-returned r.key app.storage h)

module _ (codec : Codec) where
  -- An authorized DELETE of a valid key without a star in a started storage is answered with 204
  -- if the key is there, else with 404, and an authorized GET of the key after it is answered with
  -- 404. No filter for reads or deletions matches the key, and static mode is off.
  pub unpublish-read :
      (now : ℤ) (r : Request) (app : Server)
      → r.authorized ≡ true
      → is_valid r.key ≡ true
      → has star r.key ≡ false
      → app.static ≡ false
      → first_match (λ (f : Filter). f.path) r.key app.filters.read ≡ none
      → first_match (λ (f : Hook). f.path) r.key app.filters.delete ≡ none
      → IsStarted app.storage
      → ((unpublish r app).0
          ≡ returned (elim (load r.key app.storage.mem) [
            | none ↦ record { status = 404; body = storage_error not_found }
            | some _ ↦ record { status = 204; body = text (codes "unpublish " ++ r.key) }
          ]))
        × ((read codec now r (unpublish r app).1).0
            ≡ returned (record { status = 404; body = text (codes "ooo: empty key") }))
  unfolding unpublish check_hooks
  unpublish-read now r app a v n s fr fd h = (
    ground (arith, del-returned r.key app.storage h),
    subst
        (λ app'.
          (read codec now r app').0
          ≡ returned (record { status = 404; body = text (codes "ooo: empty key") }))
        (sym (unpublish-state r app a v fd s h))
        (read-missing codec now r (record app { storage = (del r.key app.storage).1 }) a v n s fr
          (load-del_self r.key app.storage)),
  )
