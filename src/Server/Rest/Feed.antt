-- ===== src/Server/Rest/Feed.antt =====
-- What a new subscription gets first (ws.go), and what the pool of its key has then.
use mathlib.Core.List.{append-nil}
use ooo.Base.{
  ℕ, Bool, true, not, ◌&&◌, [], ◌∷◌, ◌++◌, Option, none, some, Text, text_eq, text_eq_refl, ◌≡◌,
  refl, ◌∙◌, ap, if◌then◌else◌, arith, ℤ,
}
use ooo.Key.Hex.{format_int}
use ooo.Meta.{Codec}
use ooo.Filters.{ok, check_static}
use ooo.Stream.{
  Stream, Cache, no_cache, find_pool, open_connection, subscribe, refresh, raw_data,
  get_cache_version, set_cache, frame, send,
}
use ooo.Stream.Pools.{find_pool-append, find_pool-at_pool, connections_of, open-connections}
use ooo.Stream.Refresh.{cache_of, refresh-body, refresh_lem}
use ooo.Stream.Sessions.{refresh-connections}
use ooo.Server.{Server, fetch, filtered_read, get_filtered_data}
use ooo.Server.Rest.{ws}

open-version :
    (key : Text) (client : ℕ) (s : Stream)
    → get_cache_version key (open_connection key client s) ≡ get_cache_version key s
unfolding open_connection get_cache_version
open-version key client s = ground (
  arith,
  text_eq_refl key,
  find_pool-append key s.pools (record { key = key; cache = no_cache; connections = client ∷ [] }),
  find_pool-at_pool key key (λ p. record p { connections = p.connections ++ client ∷ [] }) s.pools
      (λ p. refl),
)

open-written :
    (key : Text) (client : ℕ) (s : Stream) → (open_connection key client s).written ≡ s.written
unfolding open_connection
open-written key client s = ground arith

refresh-written :
    (path : Text) (get : Option Text) (now : ℤ) (s : Stream)
    → (refresh path get now s).1.written ≡ s.written
unfolding refresh set_cache
refresh-written path get now s = ground arith

refresh-version :
    (path : Text) (get : Option Text) (now : ℤ) (s : Stream)
    → (refresh path get now s).0.version
      ≡ elim (get_cache_version path s) [ none ↦ now | some v ↦ v ]
unfolding refresh
refresh-version path get now s = ground arith

send-written :
    (deliver : ℕ → Bool) (message : Text) (client : ℕ) (s : Stream)
    → (send deliver message client s).written
      ≡ s.written ++ (if deliver client then (client, message) ∷ [] else [])
unfolding send
send-written deliver message client s = ground (arith, append-nil s.written)

send-pools :
    (deliver : ℕ → Bool) (message : Text) (client : ℕ) (s : Stream)
    → (send deliver message client s).pools ≡ s.pools
unfolding send
send-pools deliver message client s = ground arith

module _ (codec : Codec) (on_subscribe : Text → Bool) (deliver : ℕ → Bool) (client : ℕ)
    (version : Text) (now : ℤ) (key : Text) (app : Server) where
  -- The version that the first message has: that of the cached data, else the clock's reading.
  abbrev pub first_version : ℤ
  first_version = elim (get_cache_version key app.stream) [ none ↦ now | some v ↦ v ]

  abbrev pub first_data : Text
  first_data = raw_data (filtered_read codec app key)

  -- The stream before the first message.
  abbrev pub refreshed : Cache × Stream
  refreshed = refresh key (filtered_read codec app key) now (open_connection key client app.stream)

  -- Only the stream changes.
  pub ws-app :
      on_subscribe key ≡ true
      → ws codec on_subscribe deliver client version now key app
        ≡ record app { stream = (ws codec on_subscribe deliver client version now key app).stream }
  unfolding ws fetch subscribe get_filtered_data
  ws-app o = ground arith

  ws-stream :
      on_subscribe key ≡ true
      → check_static key app.static app.filters.read ≡ ok tt
      → (ws codec on_subscribe deliver client version now key app).stream ≡ (
          if text_eq version (format_int refreshed.0.version)
          then refreshed.1
          else send deliver (frame refreshed.0.body true refreshed.0.version) client refreshed.1)
  unfolding ws fetch subscribe get_filtered_data
  ws-stream o c = ground arith

  pub ws-pools :
      on_subscribe key ≡ true
      → check_static key app.static app.filters.read ≡ ok tt
      → (ws codec on_subscribe deliver client version now key app).stream.pools ≡ refreshed.1.pools
  ws-pools o c =
      ap (λ t. t.pools) (ws-stream o c)
      ∙ ground (
        arith,
        send-pools deliver (frame refreshed.0.body true refreshed.0.version) client refreshed.1,
      )

  -- A subscription that `OnSubscribe` and static mode admit joins the pool of its key. It gets the
  -- data that is read for the key as a snapshot, with the version of the cached data, or that of
  -- the clock if there is none, unless it named this version or cannot be written to. Without
  -- cached data the cache of the pool takes the data, else it stays.
  pub ws_lem :
      on_subscribe key ≡ true
      → check_static key app.static app.filters.read ≡ ok tt
      → (connections_of key (ws codec on_subscribe deliver client version now key app).stream
          ≡ connections_of key app.stream ++ client ∷ [])
        × ((ws codec on_subscribe deliver client version now key app).stream.written
            ≡ app.stream.written
              ++ (if not (text_eq version (format_int first_version)) && deliver client
                  then (client, frame first_data true first_version) ∷ []
                  else []))
        × (cache_of key (ws codec on_subscribe deliver client version now key app).stream
            ≡ elim (get_cache_version key app.stream) [
              | none ↦ some (record { version = now; body = first_data })
              | some _ ↦ cache_of key (open_connection key client app.stream)
            ])
  ws_lem o c =
      let s = open_connection key client app.stream in
      let get = filtered_read codec app key in
      let v : refreshed.0.version ≡ first_version =
        refresh-version key get now s ∙ rw (open-version key client app.stream) in
      (
        ap (λ l. elim (find_pool key l) [ none ↦ [] | some p ↦ p.connections ]) (ws-pools o c)
            ∙ (refresh-connections key get now s key
                ∙ (open-connections key key client app.stream ∙ rw (text_eq_refl key))),
        ap (λ t. t.written) (ws-stream o c)
            ∙ ground (
              arith,
              v,
              refresh-body key get now s,
              refresh-written key get now s,
              open-written key client app.stream,
              send-written deliver (frame refreshed.0.body true refreshed.0.version) client
                  refreshed.1,
              append-nil app.stream.written,
            ),
        ap (λ l. elim (find_pool key l) [ none ↦ none | some p ↦ some p.cache ]) (ws-pools o c)
            ∙ ((refresh_lem key get now s).2 ∙ rw (open-version key client app.stream)),
      )
