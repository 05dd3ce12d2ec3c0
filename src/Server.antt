-- ===== src/Server.antt =====
-- ooo.go and clock.go: the server, which joins the storage, the streams and the filters. Every
-- request is one step here, and so is every event that a reader of the storage's channel handles;
-- Server/Workers takes the handling of events apart. HTTP, the router, the web sockets and the
-- signals are no part of the model.
pub mod Rest
pub mod Span
pub mod Defaults
pub mod Coherence
pub mod Workers
use ooo.Base.{
  ℕ, Bool, true, false, not, ◌&&◌, List, [], ◌∷◌, ◌++◌, Option, none, some, Text, is_empty,
  if◌then◌else◌, ℤ,
}
use ooo.Meta.{Codec, empty_object}
use ooo.Memory.State.{Db, Outcome, returned, panicked, blocked, Exec}
use ooo.Memory.Reads
use ooo.Memory.Life
use ooo.Filters.{Filters, Result, ok, err, check, check_static}
use ooo.Stream
use ooo.Stream.{Stream, Cache, Differ}

-- `Server`, with its storage, stream and filters. `active` and `closing` are the two flags; `notified`
-- are the calls of the hooks after writes: the hook's path and the key.
pub record Server : Type 0 where
  pub storage : Db
  pub stream : Stream
  pub filters : Filters
  pub static : Bool
  pub active : Bool
  pub closing : Bool
  pub notified : List (Text × Text)

-- `Active`
unfoldable pub is_active : Server → Bool
is_active app = app.active && not app.closing

-- A call of the storage.
abbrev pub with_storage {ℓ κ} :
    {A : Type ℓ} {B : Type κ}
    → Exec A
    → (A → Server → Outcome B × Server)
    → Server
    → Outcome B × Server
with_storage call next app =
    let (result, db) = call app.storage in
    let app' : Server = record app { storage = db } in
    elim result [
      | returned a ↦ next a app'
      | panicked ↦ (panicked, app')
      | blocked ↦ (blocked, app')
    ]

module _ (codec : Codec) where
  -- `getFilteredData`
  unfoldable pub get_filtered_data : Server → Text → Result Text
  get_filtered_data app key =
      let raw = (Reads.get codec key app.storage.mem).0 in
      check codec key (if is_empty raw then empty_object else raw) app.static app.filters.read

  -- The same, as the stream's functions take it: no bytes beside an error.
  abbrev pub filtered_read : Server → Text → Option Text
  filtered_read app key = elim (get_filtered_data app key) [ err _ ↦ none | ok bytes ↦ some bytes ]

  -- `fetch`
  unfoldable pub fetch : ℤ → Text → Server → Result Cache × Server
  fetch now key app = elim (check_static key app.static app.filters.read) [
    | err e ↦ (err e, app)
    | ok _ ↦
        let (cache, stream) = Stream.refresh key (filtered_read app key) now app.stream in
        (ok cache, record app { stream = stream })
  ]

  -- What `watch` does with an event; `now` is the clock's reading at the pool of a key.
  unfoldable pub watch : Differ → (ℕ → Bool) → (Text → ℤ) → Text → Server → Server
  watch d deliver now key app =
      if is_empty key
      then app
      else record app { stream = Stream.broadcast d deliver (filtered_read app) now key app.stream }

-- What `tick` does at each tick: none once the server is not active, when the loop ends.
unfoldable pub tick : (ℕ → Bool) → Text → Server → Outcome (Option Server)
unfolding is_active
tick deliver time app =
    if is_active app
    then elim (Stream.broadcast_clock deliver time app.stream) [
      | none ↦ panicked
      | some stream ↦ returned (some (record app { stream = stream }))
    ]
    else returned none

-- `Close`; `OnClose` and the shutdown of the HTTP server change nothing here.
unfoldable pub close : Server → Outcome (Unit {0}) × Server
close app =
    if app.closing
    then (returned tt, app)
    else with_storage Life.close (λ _ app'. (returned tt, app'))
        (record app { closing = true; active = false })

-- `waitListen` up to the serving of requests; `listens` says whether the address can be listened on.
-- An error ends the program.
unfoldable pub wait_listen : List Text → Bool → Server → Outcome (Unit {0}) × Server
wait_listen no_broadcast listens = with_storage (Life.start no_broadcast) (λ error app'.
    elim error [
      | some _ ↦ (panicked, app')
      | none ↦ if listens then (returned tt, record app' { active = true }) else (panicked, app')
    ])

-- `waitStart` up to the start of the readers; a server that did not start ends the program.
unfoldable pub wait_start : Server → Outcome (Unit {0}) × Server
wait_start app =
    if app.active
    then (elim app.storage.storage [
      | some true ↦ (returned tt, app)
      | some false ↦ (panicked, app)
      | none ↦ (panicked, app)
    ])
    else (panicked, app)

-- `Start`: a server that is active stays as it is. The flags of the stream are those that the
-- server was given.
unfoldable pub start : List Text → Bool → Bool → Bool → Server → Outcome (Unit {0}) × Server
unfolding wait_listen wait_start
start no_broadcast listens force no_patch app =
    if app.active
    then (returned tt, app)
    else (let (result, listening) = wait_listen no_broadcast listens (record app {
      active = false;
      closing = false;
      stream = Stream.init_clock (record app.stream { force_patch = force; no_patch = no_patch });
    }) in
        elim result [
          | returned _ ↦ wait_start listening
          | panicked ↦ (panicked, listening)
          | blocked ↦ (blocked, listening)
        ])
