-- ===== src/Server/Workers/Sessions/Begun.antt =====
-- From the subscription of a client (ws.go) through what follows: the client's cache keeps up with
-- that of the pool that it joined. The subscription is one step; the source writes the first
-- message in a goroutine of its own.
use mathlib.Core.List.{append-nil}
use ooo.Base.{
  ℕ, Bool, true, false, List, [], ◌∷◌, some, Text, text_eq, is_empty, ◌≡◌, ◌≢◌, ◌∙◌, sym, ap, subst,
  inl, inr, if◌then◌else◌, arith, Bool-cases, ℤ,
}
use ooo.Key.Hex.{format_int}
use ooo.Meta.{Codec}
use ooo.Memory.Writes.{Merge}
use ooo.Filters.{ok, check_static}
use ooo.Stream.{Pool, Differ, find_pool, raw_data, frame}
use ooo.Messages.{Wire, patch_cache}
use ooo.Sync.{IsWire, snapshot-Holds}
use ooo.Server.{filtered_read}
use ooo.Server.Rest.{ws}
use ooo.Server.Rest.Feed.{first_version, first_data, ws_lem, ws-app, ws-pools}
use ooo.Server.Workers.{pool_at, System}
use ooo.Server.Workers.Heard.{heard_all, heard_all-append}
use ooo.Server.Workers.Documents.{HasDocuments, here}
use ooo.Server.Workers.Sessions.{Passages}
use ooo.Server.Workers.Sessions.Places.{place}
use ooo.Server.Workers.Sessions.Entered.{
  entered, IsNew, heard_all-unwritten, heard_all-one, entered-IsSubscribed,
}
use ooo.Server.Workers.Sessions.Kept.{IsSubscribed}
use ooo.Server.Workers.Sessions.Passed.{Passages-IsSubscribed, with_stream-HasDocuments}

module _ (codec : Codec) (merge : Merge) (d : Differ) (wire : Wire) {V : Type 0} (value : Text → V)
    (is_document : Text → Bool) (laws : IsWire d wire value is_document) (deliver : ℕ → Bool)
    (on_subscribe : Text → Bool) (client : ℕ) (version : Text) (now : ℤ)
    (key cache body : Text) where
  -- The system after the subscription.
  abbrev pub after_ws : System → System
  after_ws s = record s { app = ws codec on_subscribe deliver client version now key s.app }

  module _ (s : System) (deliverable : deliver client ≡ true) (admitted : on_subscribe key ≡ true)
      (open_ : check_static key s.app.static s.app.filters.read ≡ ok tt)
      (read : filtered_read codec s.app key ≡ some body) (new : IsNew client s.app.stream)
      (docs : HasDocuments codec merge d wire value is_document laws deliver s)
      (named : text_eq version
            (format_int (first_version codec on_subscribe deliver client version now key s.app))
          ≡ true
        → value cache ≡ value body) where
    read-document : is_document body ≡ true
    read-document = docs.read s.app.storage here key body read

    ws-heard : value (heard_all wire client cache (after_ws s).app.stream.written) ≡ value body
    ws-heard =
        let app = s.app in
        let v = first_version codec on_subscribe deliver client version now key app in
        let bytes : Text = first_data codec on_subscribe deliver client version now key app in
        let raw : bytes ≡ body = ap raw_data read ∙ rw (laws.not_empty body read-document) in
        let before : heard_all wire client cache app.stream.written ≡ cache =
          heard_all-unwritten wire client cache app.stream.written new.unwritten in
        let written =
          (ws_lem codec on_subscribe deliver client version now key app admitted open_).1 in
        ap (λ w. value (heard_all wire client cache w)) written
        ∙ elim (Bool-cases (text_eq version (format_int v))) [
          | inl e ↦ rw (e, append-nil app.stream.written) (ap value before) ∙ named e
          | inr e ↦
              rw (e, deliverable, if◌then◌else◌)
                (ap value (
                  heard_all-append wire client cache app.stream.written
                    ((client, frame bytes true v) ∷ [])))
              ∙ ap value (
                  heard_all-one wire client (frame bytes true v)
                    (heard_all wire client cache app.stream.written))
              ∙ ap
                  (λ b.
                    value
                      (patch_cache wire (frame b true v)
                        (heard_all wire client cache app.stream.written)).0)
                  raw
              ∙ (snapshot-Holds d wire value is_document laws body
                  (heard_all wire client cache app.stream.written) v read-document).0
        ]

    pub ws-IsSubscribed :
        ((p : Pool)
          → find_pool key s.app.stream.pools ≡ some p
          → is_empty p.cache.body ≡ false
          → value p.cache.body ≡ value body)
        → IsSubscribed d wire value is_document laws deliver client cache
            (place key s.app.stream.pools)
            key
            (after_ws s).app.stream
    ws-IsSubscribed cached =
        entered-IsSubscribed d wire value is_document laws deliver client cache key body now
          s.app.stream (after_ws s).app.stream new read-document ws-heard
          (ws-pools codec on_subscribe deliver client version now key s.app admitted open_
            ∙ ap (λ r. (entered client key r now s.app.stream).pools) read)
          cached

    pub ws-HasDocuments :
        HasDocuments codec merge d wire value is_document laws deliver (after_ws s)
    ws-HasDocuments =
        subst (HasDocuments codec merge d wire value is_document laws deliver)
          (ap (λ a. record s { app = a })
            (sym (ws-app codec on_subscribe deliver client version now key s.app admitted)))
          (with_stream-HasDocuments d wire value is_document laws deliver client cache
            (place key s.app.stream.pools) key codec merge 1 s (after_ws s).app.stream docs)

    pub place-behind :
        (clock : Pool) (rest : List Pool)
        → s.app.stream.pools ≡ clock ∷ rest
        → text_eq clock.key key ≡ false
        → place key s.app.stream.pools ≢ 0
    place-behind clock rest e o = unfold place in ground arith

    -- A client that subscribes, by any number of readers, to a key that `OnSubscribe` and static
    -- mode admit. It is new and can be written to, the first pool has another key, the data cached
    -- for the key, if any, means what is read for it, and if the client names the version of this
    -- data, so does its cache. Whatever follows of writes of single keys that are to be broadcast,
    -- steps of the readers, other clients' subscriptions and their ends, and ticks of the clock,
    -- the pool that the client joined stays and has the key, and applying the messages written to
    -- the client gives a cache that means what the pool's cache means. What is read, of the
    -- storage as it is and as the writes that are broadcast can make it from then on, is
    -- documents, and so is what the readers hold at the start; the libraries for JSON and JSON
    -- patches do what `IsWire` says.
    pub ws-follows :
        (n : ℕ) (t : System) (clock : Pool) (rest : List Pool)
        → s.app.stream.pools ≡ clock ∷ rest
        → text_eq clock.key key ≡ false
        → ((p : Pool)
            → find_pool key s.app.stream.pools ≡ some p
            → is_empty p.cache.body ≡ false
            → value p.cache.body ≡ value body)
        → Passages codec merge d deliver n client (after_ws s) t
        → (p : Pool) × (pool_at (place key s.app.stream.pools) t.app.stream.pools ≡ some p)
          × (p.key ≡ key)
          × (value (heard_all wire client cache t.app.stream.written) ≡ value p.cache.body)
    ws-follows n t clock rest pools other cached passed =
        let (_, h) =
          Passages-IsSubscribed d wire value is_document laws deliver client cache
            (place key s.app.stream.pools) key codec merge n (after_ws s) t deliverable
            (place-behind clock rest pools other) passed ws-HasDocuments (ws-IsSubscribed cached) in
        (h.pool, h.at, h.named, h.joined.follows h.pool h.at)
