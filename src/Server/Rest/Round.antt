-- ===== src/Server/Rest/Round.antt =====
-- A write of a document and its read over HTTP (rest.go), one after the other.
use ooo.Base.{
  true, false, none, some, Text, text_eq, text_eq_refl, ◌≡◌, ◌∙◌, ap, arith, ℤ, has, is_empty, refl,
}
use ooo.Key.{is_valid, last_index}
use ooo.Key.Path.{star}
use ooo.Meta.{Object, Codec, IsCodec, empty_object}
use ooo.Memory.Table.{Table, load, load-store}
use ooo.Memory.State.{returned, IsStarted}
use ooo.Memory.Reads.{get}
use ooo.Memory.Writes.{set, entry}
use ooo.Memory.Effects.{stores, set-mem, set-returned}
use ooo.Memory.Contents.{written, decode-entry}
use ooo.Filters.{Filter, ok, first_match, check, check_static}
use ooo.Messages.{Wire, decode_reader}
use ooo.Stream.{refresh, raw_data}
use ooo.Stream.Refresh.{refresh-body}
use ooo.Server.{Server, fetch, filtered_read, get_filtered_data}
use ooo.Server.Rest.{Request, text, is_writable, write_request, republish, read}
use ooo.Server.Rest.Bodies.{is_writable-is_valid, decode_reader-not_empty, check-not_empty}
use ooo.Server.Rest.Stored.{index_response, write_request-set}

module _ (codec : Codec) where
  get-found :
      (key value : Text) (mem : Table Text)
      → has star key ≡ false
      → load key mem ≡ some value
      → (get codec key mem).0 ≡ value
  unfolding get
  get-found key value mem n m = ground arith

  -- A GET of a key that is there, where no filter matches and static mode is off.
  read-found :
      (now : ℤ) (r : Request) (app : Server) (value : Text)
      → r.authorized ≡ true
      → is_valid r.key ≡ true
      → has star r.key ≡ false
      → app.static ≡ false
      → first_match (λ (f : Filter). f.path) r.key app.filters.read ≡ none
      → load r.key app.storage.mem ≡ some value
      → is_empty value ≡ false
      → text_eq value empty_object ≡ false
      → (read codec now r app).0 ≡ returned (record { status = 200; body = text value })
  unfolding read fetch check_static
  read-found now r app value a v n s f m filled other =
      let e : filtered_read codec app r.key ≡ some value =
        unfold get_filtered_data check in
        ground (arith, get-found r.key value app.storage.mem n m) in
      let b : (refresh r.key (filtered_read codec app r.key) now app.stream).0.body ≡ value =
        refresh-body r.key (filtered_read codec app r.key) now app.stream
        ∙ ap raw_data e
        ∙ rw filled in
      ground arith

module _ (codec : Codec) (laws : IsCodec codec) (wire : Wire) where
  -- A PUT leaves static mode and the filters.
  republish-settings :
      (now : ℤ) (r : Request) (app : Server) (event bytes : Text)
      → r.authorized ≡ true
      → is_writable r.key ≡ true
      → decode_reader wire r.body ≡ some event
      → check codec r.key event app.static app.filters.write ≡ ok bytes
      → stores r.key bytes ≡ true
      → IsStarted app.storage
      → ((republish codec wire now r app).1.static ≡ app.static)
        × ((republish codec wire now r app).1.filters ≡ app.filters)
  unfolding republish write_request
  republish-settings now r app event bytes a w d c s h =
      let ret = set-returned codec now r.key bytes app.storage h in (ground arith, ground arith)

  -- An authorized PUT of a body under a key without a star that may be written, on a started
  -- storage, where the write filter makes the JSON `bytes` of the body, is answered with 200 and
  -- the last part of the key, and an authorized GET of the key after it with 200 and an object
  -- with these bytes, this key and the times of `Peek`. No filter for reads matches the key,
  -- static mode is off, and the JSON library writes an object with a JSON body neither as nothing
  -- nor as the text of the empty object.
  pub republish-read :
      (now later : ℤ) (r : Request) (app : Server) (event bytes : Text)
      → ((o : Object)
          → codec.is_json o.body ≡ true
          → (is_empty (codec.encode_object o) ≡ false)
            × (text_eq (codec.encode_object o) empty_object ≡ false))
      → r.authorized ≡ true
      → is_writable r.key ≡ true
      → has star r.key ≡ false
      → app.static ≡ false
      → first_match (λ (f : Filter). f.path) r.key app.filters.read ≡ none
      → decode_reader wire r.body ≡ some event
      → check codec r.key event app.static app.filters.write ≡ ok bytes
      → codec.is_json bytes ≡ true
      → IsStarted app.storage
      → ((republish codec wire now r app).0 ≡ returned (index_response (last_index r.key)))
        × (t : Text) × ((read codec later r (republish codec wire now r app).1).0
            ≡ returned (record { status = 200; body = text t }))
        × (codec.decode_object t ≡ some (written codec laws app.storage.mem r.key bytes now))
  republish-read now later r app event bytes writes a w n st f d c j h =
      let v = is_writable-is_valid r.key w in
      let filled =
        check-not_empty codec r.key event bytes app.static app.filters.write
          (decode_reader-not_empty wire r.body event d) c in
      let s : stores r.key bytes ≡ true = rw (v, n, filled) refl in
      let app' = (republish codec wire now r app).1 in
      let (ret, state) =
        write_request-set codec laws wire (λ key. key) now r app event bytes a w d c s h in
      let (static, filters) = republish-settings now r app event bytes a w d c s h in
      let t = entry codec app.storage.mem r.key bytes now in
      let state' : app'.storage ≡ (set codec now r.key bytes app.storage).1 =
        unfold republish in state in
      let there : load r.key app'.storage.mem ≡ some t =
        ap (λ db. load r.key db.mem) state'
        ∙ ap (load r.key) (set-mem codec now r.key bytes app.storage ∙ rw s)
        ∙ load-store r.key r.key t app.storage.mem
        ∙ rw text_eq_refl in
      (
        unfold republish in ret,
        t,
        read-found codec later r app' t a v n (static ∙ st)
            (ap (λ l. first_match (λ (f : Filter). f.path) r.key l.read) filters ∙ f) there
            (unfold entry in (writes _ j).0) (unfold entry in (writes _ j).1),
        decode-entry codec laws app.storage.mem r.key bytes now j,
      )
