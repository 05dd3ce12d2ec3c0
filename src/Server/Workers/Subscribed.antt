-- ===== src/Server/Workers/Subscribed.antt =====
-- From a write to a client's cache: a client that applies the messages written to its connection
-- (messages/messages.go) among the steps of the readers of the channel.
use ooo.Base.{ℕ, ◌≤◌, Bool, true, [], some, Text, ◌≡◌, ◌∙◌, sym, ap, subst, inl, inr, ℤ}
use ooo.Meta.{Codec}
use ooo.Memory.Writes.{Merge}
use ooo.Stream.{Pool, Differ}
use ooo.Messages.{Wire}
use ooo.Server.Workers.Heard.{heard_all, IsJoined, update_pool-IsJoined}
use ooo.Sync.{IsWire}
use ooo.Server.{Server, filtered_read}
use ooo.Server.Workers.{
  Worker, waiting, pool_at, advance, turn, System, Step, write, receive, work, Reach, start, later,
}
use ooo.Server.Coherence.{Shows}
use ooo.Server.Workers.Told.{IsOpen}
use ooo.Server.Workers.Single.{IsCurrent, Reach-IsCurrent}
use ooo.Server.Workers.Documents.{
  HasDocument, AlwaysDocuments, HasDocuments, advance-stream, Step-HasDocuments,
}

module _ (codec : Codec) (merge : Merge) (d : Differ) (wire : Wire) {V : Type 0} (value : Text → V)
    (is_document : Text → Bool) (laws : IsWire d wire value is_document) (deliver : ℕ → Bool)
    (client : ℕ) (cache : Text) (k : ℕ) where
  module _ (now : ℤ) (app : Server) where
    advance-IsJoined :
        (w : Worker)
        → deliver client ≡ true
        → HasDocument codec merge d wire value is_document laws deliver w
        → IsJoined d wire value is_document laws deliver client cache k app.stream
        → IsJoined d wire value is_document laws deliver client cache k
            (advance codec d deliver now app w).0.stream
    advance-IsJoined w r doc h =
        elim (advance-stream codec merge d wire value is_document laws deliver now app w doc) [
          | inl e ↦ subst (IsJoined d wire value is_document laws deliver client cache k) (sym e) h
          | inr (i, q, body, at, is_doc, e) ↦
              subst (IsJoined d wire value is_document laws deliver client cache k) (sym e) (
                update_pool-IsJoined d wire value is_document laws deliver client cache k now i q
                  body app.stream at h r is_doc)
        ]

  Step-IsJoined :
      (n : ℕ) (s t : System)
      → deliver client ≡ true
      → Step codec merge d deliver n s t
      → HasDocuments codec merge d wire value is_document laws deliver s
      → IsJoined d wire value is_document laws deliver client cache k s.app.stream
      → IsJoined d wire value is_document laws deliver client cache k t.app.stream
  Step-IsJoined n s t r (write q told) docs h = h
  Step-IsJoined n s t r (receive i before after e lt idle w) docs h = h
  Step-IsJoined n s t r (work i now lt) docs h =
      unfold turn in advance-IsJoined now s.app (s.workers i) r (docs.held i) h

  Reach-IsJoined :
      (n : ℕ) (app : Server) (s : System)
      → deliver client ≡ true
      → Reach codec merge d deliver n app s
      → IsJoined d wire value is_document laws deliver client cache k app.stream
      → AlwaysDocuments codec merge d wire value is_document laws deliver app
      → HasDocuments codec merge d wire value is_document laws deliver s
        × IsJoined d wire value is_document laws deliver client cache k s.app.stream
  Reach-IsJoined n app s r start j docs = (record { held = λ i. tt; read = docs }, j)
  Reach-IsJoined n app t r (later {s} p st) j docs =
      let (docs', j') = Reach-IsJoined n app s r p j docs in
      (
        Step-HasDocuments codec merge d wire value is_document laws deliver n s t st docs',
        Step-IsJoined n s t r st docs' j',
      )

  -- Of a client in one pool, once, that can be written to, let the cache mean what that of the
  -- pool means at the start of any number of readers. Whatever writes and steps of readers follow,
  -- applying the messages written to the client gives a cache that means what that of the pool
  -- means, if all that is read is documents and the libraries for JSON and JSON patches do what
  -- `IsWire` says.
  Reach-follows :
      (n : ℕ) (app : Server) (s : System) (p : Pool)
      → deliver client ≡ true
      → IsJoined d wire value is_document laws deliver client cache k app.stream
      → AlwaysDocuments codec merge d wire value is_document laws deliver app
      → Reach codec merge d deliver n app s
      → pool_at k s.app.stream.pools ≡ some p
      → value (heard_all wire client cache s.app.stream.written) ≡ value p.cache.body
  Reach-follows n app s p r j docs reached at =
      (Reach-IsJoined n app s r reached j docs).1.follows p at

  -- From a write to a client, with one reader of the channel that starts with an active storage,
  -- no event waiting and caches that hold what reads of their keys give. A client in one pool but
  -- the first, once, that can be written to, starts with a cache that means what that of the pool
  -- means. Whatever writes of single keys that are to be broadcast come between the reader's
  -- steps, whenever no event waits and the reader is back at the receive, applying the messages
  -- written to the client gives a cache that means what a read of the pool's key gives, if what is
  -- read, of the storage as it is and as the writes that are broadcast can make it from then on,
  -- is documents, and the libraries for JSON and JSON patches do what `IsWire` says.
  pub Reach-shown :
      (app : Server) (s : System) (p : Pool) (body : Text)
      → deliver client ≡ true
      → IsJoined d wire value is_document laws deliver client cache k app.stream
      → AlwaysDocuments codec merge d wire value is_document laws deliver app
      → IsOpen app.storage app.storage.no_broadcast_keys []
      → IsCurrent codec app
      → Reach codec merge d deliver 1 app s
      → s.app.storage.watcher ≡ some []
      → s.workers 0 ≡ waiting
      → 1 ≤ k
      → pool_at k s.app.stream.pools ≡ some p
      → filtered_read codec s.app p.key ≡ some body
      → value (heard_all wire client cache s.app.stream.written) ≡ value body
  Reach-shown app s p body r j docs open_ current reached none_waits idle behind at read =
      Reach-follows 1 app s p r j docs reached at
      ∙ ap value (
          subst (Shows p.cache) read (
            unfold IsCurrent in
            Reach-IsCurrent codec merge d deliver app s open_ current reached none_waits idle k p
              behind at))
