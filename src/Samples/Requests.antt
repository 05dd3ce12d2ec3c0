-- ===== src/Samples/Requests.antt =====
-- The theorems on the filters and on the server at concrete requests.
use ooo.Base.{
  true, false, not, ◌&&◌, [], ◌∷◌, ◌++◌, none, some, Text, codes, text_eq, ◌≡◌, refl, ◌≢◌, pos,
  if◌then◌else◌,
}
use ooo.Key.{is_word, ends_in_word, glob_regex, is_valid, match}
use ooo.Key.Path.{slash, path_match}
use ooo.Key.Hex.{format_int}
use ooo.Memory.Table.{load}
use ooo.Memory.State.{returned, panicked, IsStarted, not_found}
use ooo.Memory.Writes.{set}
use ooo.Filters.{Filter, Filters, check, check_static, first_match, undefined_route, noop_filter}
use ooo.Messages.{decode_reader}
use ooo.Stream.{frame, open_connection, get_cache_version}
use ooo.Stream.Pools.{connections_of}
use ooo.Stream.Refresh.{cache_of}
use ooo.Server.{Server, is_active, tick, start, close}
use ooo.Server.Span.{start-close}
use ooo.Server.Rest.{
  Request, text, storage_error, is_writable, write_request, publish, read, unpublish, ws, respond,
  clock, serve_read, serve_stats, answered, bad_key, not_authorized,
}
use ooo.Server.Rest.Guards.{static_lem}
use ooo.Server.Rest.Stored.{Stored, publish_lem, unpublish-read}
use ooo.Server.Rest.Feed.{first_version, first_data, ws_lem}
use ooo.Samples.{toy_codec, toy_codec-IsCodec}
use ooo.Samples.Wire.{toy_wire}
use ooo.Samples.Storage.{started, started-IsStarted, two_entries}
use ooo.Samples.Streams.{two_pools, reachable}

abbrev no_filters : Filters
no_filters = record { write = []; read = []; delete = []; after_write = [] }

abbrev shop_filter : Filter
shop_filter = record { path = codes "shop/*"; apply = noop_filter }

abbrev pub server : Server
server = record {
  storage = started;
  stream = two_pools;
  filters = no_filters;
  static = false;
  active = true;
  closing = false;
  notified = [];
}

abbrev static_server : Server
static_server = record server {
  static = true;
  filters = record no_filters { write = shop_filter ∷ [] };
}

abbrev pub request : Text → Request
request key = record { authorized = true; websocket = false; key = key; body = codes "[3]" }

start-close_example :
    ((start [] true true false (record server { active = false })).0 ≡ returned tt)
    × (is_active (start [] true true false (record server { active = false })).1 ≡ true)
    × IsStarted (start [] true true false (record server { active = false })).1.storage
    × (tick reachable (codes "9") (start [] true true false (record server { active = false })).1
        ≢ panicked)
    × ((close (start [] true true false (record server { active = false })).1).0 ≡ returned tt)
    × (tick reachable
          (codes "9")
          (close (start [] true true false (record server { active = false })).1).1
        ≡ returned none)
    × (close (close (start [] true true false (record server { active = false })).1).1
        ≡ (returned tt, (close (start [] true true false (record server { active = false })).1).1))
    × ((start [] false true false (record server { active = false })).0 ≡ panicked)
start-close_example =
    start-close [] true false (record server { active = false }) reachable (codes "9") refl

static_lem_example :
    (write_request toy_codec toy_wire
        (λ key. key)
        (set toy_codec (pos 30))
        (request (codes "a/b"))
        static_server
      ≡ respond 400 (text (undefined_route (codes "a/b"))) static_server)
    × (read toy_codec (pos 30) (request (codes "a/b")) static_server
        ≡ respond 400 (text (undefined_route (codes "a/b"))) static_server)
    × (unpublish (request (codes "a/b")) static_server
        ≡ respond 400 (text (undefined_route (codes "a/b"))) static_server)
unfolding is_writable is_valid glob_regex is_word ends_in_word first_match match path_match
    decode_reader
static_lem_example =
    static_lem toy_codec toy_wire (λ key. key) (set toy_codec (pos 30)) (pos 30)
      (request (codes "a/b")) static_server (codes "[3]") refl refl refl refl refl refl refl

publish_lem_example :
    Stored toy_codec toy_codec-IsCodec toy_wire
      (pos 31)
      (codes "game" ++ slash ∷ format_int (pos 30))
      (codes "[3]")
      server
      (publish toy_codec toy_wire (pos 30) (pos 31) (request (codes "game/*")) server)
unfolding is_writable is_valid glob_regex is_word ends_in_word decode_reader check first_match
publish_lem_example =
    publish_lem toy_codec toy_codec-IsCodec toy_wire (codes "game") 30 (pos 31)
      (request (codes "game/*")) server (codes "[3]") (codes "[3]") refl refl refl refl refl refl
      refl started-IsStarted

unpublish-read_example :
    ((unpublish (request (codes "game/15")) server).0
      ≡ returned (elim (load (codes "game/15") two_entries) [
        | none ↦ record { status = 404; body = storage_error not_found }
        | some _ ↦ record { status = 204; body = text (codes "unpublish " ++ codes "game/15") }
      ]))
    × ((read toy_codec
          (pos 30)
          (request (codes "game/15"))
          (unpublish (request (codes "game/15")) server).1).0
        ≡ returned (record { status = 404; body = text (codes "ooo: empty key") }))
unfolding is_valid glob_regex is_word ends_in_word first_match
unpublish-read_example =
    unpublish-read toy_codec (pos 30) (request (codes "game/15")) server refl refl refl refl refl
      refl started-IsStarted

ws_lem_example :
    (connections_of
        (codes "game/*")
        (ws toy_codec (λ key. true) reachable 5 [] (pos 30) (codes "game/*") server).stream
      ≡ connections_of (codes "game/*") two_pools ++ 5 ∷ [])
    × ((ws toy_codec (λ key. true) reachable 5 [] (pos 30) (codes "game/*") server).stream.written
        ≡ []
          ++ (if not (
                  text_eq [] (
                    format_int (
                      first_version toy_codec
                        (λ key. true)
                        reachable
                        5
                        []
                        (pos 30)
                        (codes "game/*")
                        server)))
                && reachable 5
              then (
                5,
                frame
                    (first_data toy_codec
                      (λ key. true)
                      reachable
                      5
                      []
                      (pos 30)
                      (codes "game/*")
                      server)
                    true
                    (first_version toy_codec
                      (λ key. true)
                      reachable
                      5
                      []
                      (pos 30)
                      (codes "game/*")
                      server),
              )
                ∷ []
              else []))
    × (cache_of
          (codes "game/*")
          (ws toy_codec (λ key. true) reachable 5 [] (pos 30) (codes "game/*") server).stream
        ≡ elim (get_cache_version (codes "game/*") two_pools) [
          | none ↦ some (record {
            version = pos 30;
            body =
                first_data toy_codec (λ key. true) reachable 5 [] (pos 30) (codes "game/*") server;
          })
          | some _ ↦ cache_of (codes "game/*") (open_connection (codes "game/*") 5 two_pools)
        ])
unfolding check_static first_match
ws_lem_example =
    ws_lem toy_codec (λ key. true) reachable 5 [] (pos 30) (codes "game/*") server refl refl

abbrev upgrade : Text → Request
upgrade key = record (request key) { websocket = true }

-- An upgrade is handed to `ws`, but for a key that is not valid or a request that is not
-- authorized; that of the statistics to `clock`, which leaves an unauthorized one unanswered.
upgrades :
    (serve_read toy_codec (λ key. true) reachable 5 [] (pos 30) (upgrade (codes "game/*")) server
      ≡ (returned none, ws toy_codec (λ key. true) reachable 5 [] (pos 30) (codes "game/*") server))
    × (serve_read toy_codec (λ key. true) reachable 5 [] (pos 30) (upgrade (codes "/")) server
        ≡ answered (bad_key server))
    × (serve_read toy_codec
          (λ key. true)
          reachable
          5
          []
          (pos 30)
          (record (upgrade (codes "game/*")) { authorized = false })
          server
        ≡ answered (not_authorized server))
    × (serve_stats toy_codec
          (λ key. true)
          reachable
          5
          []
          (record (upgrade []) { authorized = false })
          server
        ≡ (returned none, server))
unfolding serve_read serve_stats clock is_valid glob_regex is_word ends_in_word
upgrades = (refl, refl, refl, refl)
