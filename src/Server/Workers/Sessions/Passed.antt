-- ===== src/Server/Workers/Sessions/Passed.antt =====
-- A client's subscription (stream/stream.go) through the messages to others, the steps of writers
-- and readers, and the subscriptions of others.
use ooo.Base.{
  ℕ, ◌==◌, Bool, true, false, List, [], ◌∷◌, some, Text, count, ◌≡◌, ◌≢◌, refl, ◌∙◌, sym, ap, subst,
  inl, inr, arith, Bool-cases, ℤ,
}
use ooo.Meta.{Codec}
use ooo.Memory.Writes.{Merge}
use ooo.Stream.{send, Stream, Pool, Differ, set_pool_cache, send_all, broadcast_clock}
use ooo.Stream.Broadcast.{wrote, written_to, send_all-wrote}
use ooo.Messages.{Wire}
use ooo.Sync.{IsWire}
use ooo.Server.{filtered_read}
use ooo.Server.Workers.{pool_at, update_pool, System, Step, write, receive, work, turn}
use ooo.Server.Workers.Places.{update_pool-pools}
use ooo.Server.Workers.Documents.{
  HasDocuments, advance-stream, Step-HasDocuments, stream-AlwaysDocuments,
}
use ooo.Server.Workers.Heard.{heard_all, heard_all-append, heard_all-none, update_pool-IsJoined}
use ooo.Server.Workers.Sessions.{
  Delivery, first, tick, with_stream, Passage, step, change, message, Passages, none_yet, then_,
}
use ooo.Server.Workers.Sessions.Kept.{
  pool_at_unique, IsSubscribed, IsKept, same_pools-IsKept, Change-IsKept,
}
use ooo.Server.Workers.Sessions.Places.{pool_at-set_self}

module _ (d : Differ) (wire : Wire) {V : Type 0} (value : Text → V) (is_document : Text → Bool)
    (laws : IsWire d wire value is_document) (deliver : ℕ → Bool) (client : ℕ) (cache : Text)
    (k : ℕ) (key : Text) where
  module _ (s : Stream)
      (h : IsSubscribed d wire value is_document laws deliver client cache k key s) where
    -- A message to others.
    send_all-IsKept :
        (m : Text) (clients : List ℕ)
        → count client clients ≡ 0
        → IsKept d wire value is_document laws deliver client cache k key s
            (send_all deliver m clients s)
            h
    send_all-IsKept m clients c =
        let e = send_all-wrote deliver m clients s in
        same_pools-IsKept d wire value is_document laws deliver client cache k key s
          (send_all deliver m clients s) h
          (ap (λ t. heard_all wire client cache t.written) e
            ∙ unfold wrote in
              heard_all-append wire client cache s.written (written_to deliver clients m)
              ∙ heard_all-none wire client deliver m (heard_all wire client cache s.written) clients
                  c)
          (ap (λ t. t.pools) e ∙ unfold wrote in refl)

    tick-IsKept :
        (time : Text) (s' : Stream) (pools : List Pool)
        → s.pools ≡ pools
        → k ≢ 0
        → broadcast_clock deliver time s ≡ some s'
        → IsKept d wire value is_document laws deliver client cache k key s s' h
    tick-IsKept time s' [] e n b = absurd (unfold broadcast_clock in ground arith)
    tick-IsKept time s' (clock ∷ pools) e n b =
        let f : s' ≡ send_all deliver time clock.connections s =
          unfold broadcast_clock in ground arith in
        let first_pool : pool_at 0 s.pools ≡ some clock = unfold pool_at in ground arith in
        let other : (0 == k) ≡ false = ground arith in
        subst (λ t. IsKept d wire value is_document laws deliver client cache k key s t h) (sym f)
          (send_all-IsKept time clock.connections (h.joined.only 0 clock first_pool ∙ rw other))

    pub Delivery-IsKept :
        (s' : Stream)
        → k ≢ 0
        → Delivery client deliver s s'
        → IsKept d wire value is_document laws deliver client cache k key s s' h
    Delivery-IsKept s' n (first c m o) =
        let e : send_all deliver m (c ∷ []) s ≡ send deliver m c s = unfold send_all in refl in
        subst (λ t. IsKept d wire value is_document laws deliver client cache k key s t h) e
          (send_all-IsKept m (c ∷ []) (ground arith))
    Delivery-IsKept s' n (tick time _ e) = tick-IsKept time s' s.pools refl n e

    pub update_pool-IsSubscribed :
        (now : ℤ) (j : ℕ) (q : Pool) (body : Text)
        → deliver client ≡ true
        → pool_at j s.pools ≡ some q
        → is_document body ≡ true
        → IsSubscribed d wire value is_document laws deliver client cache k key
            (update_pool d deliver now j q body s)
    update_pool-IsSubscribed now j q body r at doc =
        let s' = update_pool d deliver now j q body s in
        let joined =
          update_pool-IsJoined d wire value is_document laws deliver client cache k now j q body s
            at h.joined r doc in
        let there =
          ap (pool_at k) (update_pool-pools d deliver now j q body s)
          ∙ pool_at-set_self k j (set_pool_cache body now q) h.pool s.pools h.at in
        elim (Bool-cases (k == j)) [
          | inr e ↦ record {
            joined = joined;
            pool = h.pool;
            at = there ∙ rw e;
            named = h.named;
            filled = h.filled;
          }
          | inl e ↦
              let same : k ≡ j = ground arith in
              let own : q ≡ h.pool =
                pool_at_unique k s.pools q h.pool
                  (subst (λ i. pool_at i s.pools ≡ some q) (sym same) at) h.at in
              record {
                joined = joined;
                pool = set_pool_cache body now q;
                at = there ∙ rw e;
                named = unfold set_pool_cache in ap (λ t. t.key) own ∙ h.named;
                filled = unfold set_pool_cache in laws.not_empty body doc;
              }
        ]

  module _ (codec : Codec) (merge : Merge) (n : ℕ) where
    Step-IsSubscribed :
        (s t : System)
        → deliver client ≡ true
        → Step codec merge d deliver n s t
        → HasDocuments codec merge d wire value is_document laws deliver s
        → IsSubscribed d wire value is_document laws deliver client cache k key s.app.stream
        → IsSubscribed d wire value is_document laws deliver client cache k key t.app.stream
    Step-IsSubscribed s t r (write q told) docs h = h
    Step-IsSubscribed s t r (receive i before after e lt idle w) docs h = h
    Step-IsSubscribed s t r (work i now lt) docs h =
        unfold turn in
        elim (advance-stream codec merge d wire value is_document laws deliver now s.app
          (s.workers i) (docs.held i)) [
            | inl e ↦
                subst (IsSubscribed d wire value is_document laws deliver client cache k key)
                  (sym e) h
            | inr (j, q, body, at, doc, e) ↦
                subst (IsSubscribed d wire value is_document laws deliver client cache k key)
                  (sym e) (update_pool-IsSubscribed s.app.stream h now j q body r at doc)
          ]

    pub with_stream-HasDocuments :
        (s : System) (stream : Stream)
        → HasDocuments codec merge d wire value is_document laws deliver s
        → HasDocuments codec merge d wire value is_document laws deliver (with_stream s stream)
    with_stream-HasDocuments s stream docs = record {
      held = docs.held;
      read =
          stream-AlwaysDocuments codec merge d wire value is_document laws deliver s.app stream
            docs.read;
    }

    Passage-IsSubscribed :
        (s t : System)
        → deliver client ≡ true
        → k ≢ 0
        → Passage codec merge d deliver n client s t
        → HasDocuments codec merge d wire value is_document laws deliver s
        → IsSubscribed d wire value is_document laws deliver client cache k key s.app.stream
        → HasDocuments codec merge d wire value is_document laws deliver t
          × IsSubscribed d wire value is_document laws deliver client cache k key t.app.stream
    Passage-IsSubscribed s t r b (step _ st) docs h = (
      Step-HasDocuments codec merge d wire value is_document laws deliver n s t st docs,
      Step-IsSubscribed s t r st docs h,
    )
    Passage-IsSubscribed s t r b (change stream outside m) docs h = (
      with_stream-HasDocuments s stream docs,
      (Change-IsKept d wire value is_document laws deliver client cache k key s.app.stream h
          (filtered_read codec s.app) stream m).now_joined,
    )
    Passage-IsSubscribed s t r b (message stream m) docs h = (
      with_stream-HasDocuments s stream docs,
      (Delivery-IsKept s.app.stream h stream b m).now_joined,
    )

    pub Passages-IsSubscribed :
        (s t : System)
        → deliver client ≡ true
        → k ≢ 0
        → Passages codec merge d deliver n client s t
        → HasDocuments codec merge d wire value is_document laws deliver s
        → IsSubscribed d wire value is_document laws deliver client cache k key s.app.stream
        → HasDocuments codec merge d wire value is_document laws deliver t
          × IsSubscribed d wire value is_document laws deliver client cache k key t.app.stream
    Passages-IsSubscribed s t r b none_yet docs h = (docs, h)
    Passages-IsSubscribed s t r b (then_ {t = u} p st) docs h =
        let (docs', h') = Passages-IsSubscribed s u r b p docs h in
        Passage-IsSubscribed u t r b st docs' h'
