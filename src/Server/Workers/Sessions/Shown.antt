-- ===== src/Server/Workers/Sessions/Shown.antt =====
-- From a write to a client that subscribes while others write and subscribe (ws.go, ooo.go,
-- stream/stream.go): with one reader of the channel, it is shown what a read gives.
use ooo.Base.{
  ℕ, ◌≤◌, Bool, true, false, List, [], ◌∷◌, some, Text, text_eq, is_empty, ◌≡◌, ◌∙◌, sym, ap, subst,
  inr, arith, ℤ, refl,
}
use ooo.Key.Hex.{format_int}
use ooo.Meta.{Codec}
use ooo.Memory.State.{Event}
use ooo.Memory.Writes.{Merge}
use ooo.Filters.{ok, check_static}
use ooo.Stream.{Pool, Differ, find_pool}
use ooo.Messages.{Wire}
use ooo.Sync.{IsWire}
use ooo.Server.{filtered_read}
use ooo.Server.Coherence.{Shows}
use ooo.Server.Rest.Feed.{first_version, ws-app, ws-pools}
use ooo.Server.Workers.{waiting, pool_at, System}
use ooo.Server.Workers.Told.{IsOpen}
use ooo.Server.Workers.Visits.{read-stream}
use ooo.Server.Workers.Single.{resting-IsCoherent}
use ooo.Server.Workers.Heard.{heard_all}
use ooo.Server.Workers.Documents.{HasDocuments, here}
use ooo.Server.Workers.Sessions.{IsOutside, with_stream, Passages}
use ooo.Server.Workers.Sessions.Places.{place}
use ooo.Server.Workers.Sessions.Entered.{entered, IsNew}
use ooo.Server.Workers.Sessions.Kept.{pool_at_unique, IsSubscribed}
use ooo.Server.Workers.Sessions.Passed.{Passages-IsSubscribed}
use ooo.Server.Workers.Sessions.Cached.{
  outside-Settled, entered-body, Only, Only-behind, InvOnly, Passages-Inv,
}
use ooo.Server.Workers.Sessions.Begun.{after_ws, ws-IsSubscribed, ws-HasDocuments, place-behind}

module _ (codec : Codec) (merge : Merge) (d : Differ) (wire : Wire) {V : Type 0} (value : Text → V)
    (is_document : Text → Bool) (laws : IsWire d wire value is_document) (deliver : ℕ → Bool)
    (on_subscribe : Text → Bool) (client : ℕ) (version : Text) (now : ℤ)
    (key cache body : Text) where
  module _ (s : System) (deliverable : deliver client ≡ true) (admitted : on_subscribe key ≡ true)
      (open_ : check_static key s.app.static s.app.filters.read ≡ ok tt)
      (read : filtered_read codec s.app key ≡ some body) (new : IsNew client s.app.stream)
      (docs : HasDocuments codec merge d wire value is_document laws deliver s)
      (named : text_eq version
            (format_int (first_version codec on_subscribe deliver client version now key s.app))
          ≡ true
        → value cache ≡ value body)
      (cached : (p : Pool)
        → find_pool key s.app.stream.pools ≡ some p
        → is_empty p.cache.body ≡ false
        → p.cache.body ≡ body) where
    abbrev k : ℕ
    k = place key s.app.stream.pools

    abbrev begun : System
    begun =
        after_ws codec merge d wire value is_document laws deliver on_subscribe client version now
          key cache body s

    begun-IsSubscribed :
        IsSubscribed d wire value is_document laws deliver client cache k key begun.app.stream
    begun-IsSubscribed =
        ws-IsSubscribed codec merge d wire value is_document laws deliver on_subscribe client
          version now key cache body s deliverable admitted open_ read new docs named
          (λ p f n. ap value (cached p f n))

    begun-HasDocuments : HasDocuments codec merge d wire value is_document laws deliver begun
    begun-HasDocuments =
        ws-HasDocuments codec merge d wire value is_document laws deliver on_subscribe client
          version now key cache body s deliverable admitted open_ read new docs named

    begun-Shows :
        (p : Pool)
        → pool_at k begun.app.stream.pools ≡ some p
        → Shows p.cache (filtered_read codec (with_stream s begun.app.stream).app p.key)
    begun-Shows p at =
        let h = begun-IsSubscribed in
        let named_so : p.key ≡ key =
          ap (λ t. t.key) (pool_at_unique k begun.app.stream.pools p h.pool at h.at) ∙ h.named in
        subst (Shows p.cache)
          (sym (
            read-stream codec s.app begun.app.stream p.key
            ∙ ap (filtered_read codec s.app) named_so
            ∙ read))
          (entered-body client key body now s.app.stream begun.app.stream p
            (laws.not_empty body (docs.read s.app.storage here key body read))
            (ws-pools codec on_subscribe deliver client version now key s.app admitted open_
              ∙ ap (λ r. (entered client key r now s.app.stream).pools) read)
            at cached)

    begun-InvOnly :
        (quiet : List Text) (events : List Event) (behind : 1 ≤ k)
        → IsOpen s.app.storage quiet events
        → IsOutside (s.workers 0)
        → InvOnly codec merge d wire value is_document laws deliver client cache k key behind quiet
            begun
    begun-InvOnly quiet events behind opened outside =
        subst
          (InvOnly codec merge d wire value is_document laws deliver client cache k key behind
            quiet)
          (ap (λ a. record s { app = a })
            (sym (ws-app codec on_subscribe deliver client version now key s.app admitted)))
          (record {
            events = events;
            is_open = opened;
            pools = λ i p e at. inr (
                outside-Settled (filtered_read codec (with_stream s begun.app.stream).app p.key)
                  (s.workers 0) i p outside
                  (begun-Shows p (subst (λ j. pool_at j begun.app.stream.pools ≡ some p) e at)));
          })

    -- From a write to a client that subscribes, with one reader of the channel, which is outside
    -- `Broadcast` then, and a storage that is active. `OnSubscribe` and static mode admit the key.
    -- The client is new and can be written to, the first pool has another key, the data cached for
    -- the key, if any, is what a read gives, and if the client names the version of this data, its
    -- cache means what the data means. Whatever follows of writes of single keys that are to be
    -- broadcast, steps of the reader, other clients' subscriptions and their ends, and ticks of
    -- the clock, whenever no event waits and the reader is back at the receive, applying the
    -- messages written to the client gives a cache that means what a read of the key gives then.
    -- What is read, of the storage as it is and as the writes that are broadcast can make it from
    -- then on, is documents, and so is what the readers hold at the start; the libraries for JSON
    -- and JSON patches do what `IsWire` says.
    pub ws-shown :
        (t : System) (clock : Pool) (rest : List Pool) (events : List Event) (shown : Text)
        → s.app.stream.pools ≡ clock ∷ rest
        → text_eq clock.key key ≡ false
        → IsOpen s.app.storage s.app.storage.no_broadcast_keys events
        → IsOutside (s.workers 0)
        → Passages codec merge d deliver 1 client begun t
        → t.app.storage.watcher ≡ some []
        → t.workers 0 ≡ waiting
        → filtered_read codec t.app key ≡ some shown
        → value (heard_all wire client cache t.app.stream.written) ≡ value shown
    ws-shown t clock rest events shown pools other opened outside passed none_waits idle shows =
        let n0 =
          place-behind codec merge d wire value is_document laws deliver on_subscribe client version
            now key cache body s deliverable admitted open_ read new docs named clock rest pools
            other in
        let behind : 1 ≤ k = omega (arith, n0) in
        let quiet = s.app.storage.no_broadcast_keys in
        let h =
          (Passages-IsSubscribed d wire value is_document laws deliver client cache k key codec
            merge 1 begun t deliverable n0 passed begun-HasDocuments begun-IsSubscribed).1 in
        let inv =
          Passages-Inv codec merge d wire value is_document laws deliver client cache k key behind
            quiet begun t deliverable passed begun-HasDocuments begun-IsSubscribed
            (begun-InvOnly quiet events behind opened outside) in
        let current =
          resting-IsCoherent codec merge d deliver (Only k) (Only-behind k behind) quiet t inv
            none_waits idle k h.pool refl h.at in
        h.joined.follows h.pool h.at
        ∙ ap value
            (subst (Shows h.pool.cache) (ap (filtered_read codec t.app) h.named ∙ shows) current)
