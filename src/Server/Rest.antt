-- ===== src/Server/Rest.antt =====
-- rest.go, ws.go and the handler of clock.go: what the server does with a request. `authorized` is
-- what `Audit` answers, `websocket` whether the request asks for an upgrade.
pub mod Guards
pub mod Bodies
pub mod Stored
pub mod Feed
pub mod Writable
pub mod Safe
pub mod Refused
pub mod Round
use ooo.Base.{
  ℕ, suc, Bool, true, false, not, ◌&&◌, ◌||◌, List, [], ◌∷◌, ◌++◌, Option, none, some, Text,
  text_eq, codes, is_empty, has, count, index_of, length, ltb, ◌==◌, if◌then◌else◌, ℤ,
}
use ooo.Key.{is_valid, build}
use ooo.Key.Path.{star}
use ooo.Key.Hex.{format_int}
use ooo.Meta.{Codec, empty_object}
use ooo.Memory.State.{Db, Error, not_found, Outcome, returned, panicked, blocked, Exec, Reply}
use ooo.Memory.Reads
use ooo.Memory.Writes
use ooo.Memory.Writes.{Merge}
use ooo.Filters.{Filters, Result, ok, err, check, check_hooks, check_watchers}
use ooo.Stream.{Cache, subscribe, frame, send}
use ooo.Messages.{Wire, decode_reader}
use ooo.Server.{Server, with_storage, fetch}

-- What a response carries: a text, the message of the storage's error, or that of a library.
pub data Body : Type 0 where
  text : Text → Body
  storage_error : Error → Body
  decode_error : Body

pub record Response : Type 0 where
  pub status : ℕ
  pub body : Body

pub record Request : Type 0 where
  pub authorized : Bool
  pub websocket : Bool
  pub key : Text
  pub body : Text

abbrev pub Handler : Type 0
Handler = Server → Outcome Response × Server

abbrev pub respond : ℕ → Body → Handler
respond status body app = (returned (record { status = status; body = body }), app)

abbrev pub not_authorized : Handler
not_authorized = respond 401 (text (codes "ooo: pathKeyError key is not valid"))

abbrev pub bad_key : Handler
bad_key = respond 400 (text (codes "ooo: pathKeyError key is not valid"))

-- The test of a key that is to be written: at most one star, and at the end.
unfoldable pub is_writable : Text → Bool
is_writable key =
    let stars = count star key in
    let at_the_end : Bool = elim (index_of star key) [
      | none ↦ false
      | some where_ ↦ suc where_ == length key
    ] in
    not (not (is_valid key) || ltb 1 stars || ((stars == 1) && not at_the_end))

-- The response to a write, and the hook after it.
abbrev pub written : Text → Text → Handler
written key index app =
    respond 200 (text (codes "{\"index\":\"" ++ (index ++ codes "\"}")))
      (elim (check_watchers key app.filters.after_write) [
        | none ↦ app
        | some w ↦ record app { notified = app.notified ++ (w.path, key) ∷ [] }
      ])

-- What `publish`, `republish` and `patch` share: the tests, the body, the filter under the key that
-- `key_of` makes of the request's, and the storage's operation.
unfoldable pub write_request :
    Codec → Wire → (Text → Text) → (Text → Text → Exec (Reply Text)) → Request → Handler
write_request codec wire key_of operation r app =
    if not r.authorized
    then not_authorized app
    else if not (is_writable r.key)
    then bad_key app
    else elim (decode_reader wire r.body) [
      | none ↦ respond 400 decode_error app
      | some event ↦ elim (check codec (key_of r.key) event app.static app.filters.write) [
        | err e ↦ respond 400 (text e) app
        | ok bytes ↦
            with_storage (operation (key_of r.key) bytes)
              (λ reply. elim reply.1 [
                | some e ↦ respond 500 (storage_error e)
                | none ↦ written (key_of r.key) reply.0
              ])
              app
      ]
    ]

module _ (codec : Codec) (wire : Wire) where
  -- `now` is the clock's reading, first in `Build` and then in `Set`.
  unfoldable pub publish : ℤ → ℤ → Request → Handler
  publish now now' = write_request codec wire (build now) (Writes.set codec now')

  unfoldable pub republish : ℤ → Request → Handler
  republish now = write_request codec wire (λ key. key) (Writes.set codec now)

  unfoldable pub patch : Merge → ℤ → Request → Handler
  patch merge now = write_request codec wire (λ key. key) (Writes.patch codec merge now)

module _ (codec : Codec) where
  -- `read` of a request that asks for no upgrade.
  unfoldable pub read : ℤ → Request → Handler
  read now r app =
      if not (is_valid r.key)
      then bad_key app
      else if not r.authorized
      then not_authorized app
      else let (result, app') = fetch codec now r.key app in
        elim result [
          | err e ↦ respond 400 (text e) app'
          | ok cache ↦
              if text_eq cache.body empty_object
              then respond 404 (text (codes "ooo: empty key")) app'
              else respond 200 (text cache.body) app'
        ]

  -- `getStats` of a request that asks for no upgrade.
  unfoldable pub get_stats : Request → Handler
  get_stats r app =
      if not r.authorized
      then not_authorized app
      else let (stats, failure) = Reads.keys codec app.storage.mem in
        elim failure [
          | some e ↦ respond 500 (storage_error e) app
          | none ↦ respond 200 (text stats) app
        ]

  -- `ws`, up to the wait for the connection's end. The first message is written at once; the source
  -- starts a goroutine for it. `version` is the form value `v`.
  unfoldable pub ws : (Text → Bool) → (ℕ → Bool) → ℕ → Text → ℤ → Text → Server → Server
  ws on_subscribe deliver client version now key app =
      elim (subscribe true on_subscribe key client app.stream) [
        | none ↦ app
        | some stream ↦
            let (result, app') = fetch codec now key (record app { stream = stream }) in
            elim result [
              | err _ ↦ app'
              | ok cache ↦
                  if text_eq version (format_int cache.version) then app' else record app' {
                    stream = send deliver (frame cache.body true cache.version) client app'.stream;
                  }
            ]
      ]

unfoldable pub unpublish : Request → Handler
unpublish r app =
    if not (is_valid r.key)
    then bad_key app
    else if not r.authorized
    then not_authorized app
    else elim (check_hooks r.key app.static app.filters.delete) [
      | err e ↦ respond 400 (text e) app
      | ok _ ↦
          with_storage (Writes.del r.key)
            (λ result. elim result [
              | some not_found ↦ respond 404 (storage_error not_found)
              | some e ↦ respond 500 (storage_error e)
              | none ↦ respond 204 (text (codes "unpublish " ++ r.key))
            ])
            app
    ]

-- `clock`, of an upgraded connection; it joins the clock's pool and gets the time.
unfoldable pub clock : Bool → (Text → Bool) → (ℕ → Bool) → ℕ → Text → Server → Server
clock authorized on_subscribe deliver client time app =
    if not authorized then app else elim (subscribe true on_subscribe [] client app.stream) [
      | none ↦ app
      | some stream ↦ record app { stream = send deliver time client stream }
    ]

-- What a GET is answered with: a response, or none where the connection is upgraded.
abbrev pub Answer : Type 0
Answer = Outcome (Option Response) × Server

abbrev pub answered : Outcome Response × Server → Answer
answered (returned response, app) = (returned (some response), app)
answered (panicked, app) = (panicked, app)
answered (blocked, app) = (blocked, app)

-- `read`: a request for an upgrade is handed to `ws` after the tests of the key and of `Audit`.
unfoldable pub serve_read :
    Codec → (Text → Bool) → (ℕ → Bool) → ℕ → Text → ℤ → Request → Server → Answer
serve_read codec on_subscribe deliver client version now r app =
    if not (is_valid r.key)
    then answered (bad_key app)
    else if not r.authorized
    then answered (not_authorized app)
    else if r.websocket
    then (returned none, ws codec on_subscribe deliver client version now r.key app)
    else answered (read codec now r app)

-- `getStats`: a request for an upgrade is handed to `clock`, which tests `Audit` itself.
unfoldable pub serve_stats :
    Codec → (Text → Bool) → (ℕ → Bool) → ℕ → Text → Request → Server → Answer
serve_stats codec on_subscribe deliver client time r app =
    if r.websocket
    then (returned none, clock r.authorized on_subscribe deliver client time app)
    else answered (get_stats codec r app)
