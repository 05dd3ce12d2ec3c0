-- ===== src/Server/Workers/Documents.antt =====
-- What the readers of the channel hold on their way through the pools (stream/stream.go) is
-- documents.
use ooo.Base.{
  ℕ, suc, ◌==◌, Bool, true, some, Text, List, ◌∷◌, ◌++◌, ◌≡◌, refl, ◌∙◌, sym, subst, ◌⊎◌, inl, inr,
  if◌then◌else◌, arith, Bool-cases, Option-cases, ℤ, is_empty,
}
use ooo.Meta.{Codec}
use ooo.Memory.State.{Db, Event}
use ooo.Memory.Run.{Request}
use ooo.Memory.Run
use ooo.Memory.Writes.{Merge}
use ooo.Stream.{Stream, Pool, Differ}
use ooo.Messages.{Wire}
use ooo.Sync.{IsWire, Documents}
use ooo.Server.{Server, filtered_read}
use ooo.Server.Workers.{
  Worker, waiting, visiting, holding, checking, ended, pool_at, update_pool, received, visit,
  is_told, advance, turn, put, System, Step, write, receive, work,
}
use ooo.Server.Workers.Visits.{read-stream, Visited, visit-Visited}

module _ (codec : Codec) (merge : Merge) (d : Differ) (wire : Wire) {V : Type 0} (value : Text → V)
    (is_document : Text → Bool) (laws : IsWire d wire value is_document) (deliver : ℕ → Bool) where
  -- What a reader holds is a document.
  abbrev pub HasDocument : Worker → Type 0
  HasDocument (holding key i body) = is_document body ≡ true
  HasDocument waiting = Unit
  HasDocument (visiting key i) = Unit
  HasDocument checking = Unit
  HasDocument ended = Unit

  -- The storages that writes of single keys that are to be broadcast, and receives of their events,
  -- lead to.
  pub data LeadsTo : Db → Db → Type 0 where
    here : {db : Db} → LeadsTo db db
    written :
        {db later : Db} (r : Request)
        → is_told db.no_broadcast_keys r ≡ true
        → LeadsTo (Run.step codec merge r db) later
        → LeadsTo db later
    taken :
        {db later : Db} (before after : List Event) (e : Event)
        → db.watcher ≡ some (before ++ e ∷ after)
        → LeadsTo (record db { watcher = some (before ++ after) }) later
        → LeadsTo db later

  -- What is read is a document, of the storage as it is and as the writes that are broadcast can
  -- make it from then on.
  abbrev pub AlwaysDocuments : Server → Type 0
  AlwaysDocuments app =
      (db : Db)
      → LeadsTo app.storage db
      → Documents d wire value is_document laws (filtered_read codec (record app { storage = db }))

  Visited-HasDocument :
      (app : Server) (key : Text) (j : ℕ) (w : Worker)
      → Documents d wire value is_document laws (filtered_read codec app)
      → Visited codec app key j w
      → HasDocument w
  Visited-HasDocument app key j w docs (Visited.behind e) = tt
  Visited-HasDocument app key j w docs (Visited.passed q e f) = tt
  Visited-HasDocument app key j w docs (Visited.held q body e r) = docs q.key body r

  module _ (now : ℤ) (app : Server) where
    -- A reader leaves the stream as it is, or updates a pool to a document.
    pub advance-stream :
        (w : Worker)
        → HasDocument w
        → ((advance codec d deliver now app w).0.stream ≡ app.stream)
          ⊎ ((i : ℕ) × (q : Pool) × (body : Text) × (pool_at i app.stream.pools ≡ some q)
              × (is_document body ≡ true)
              × ((advance codec d deliver now app w).0.stream
                  ≡ update_pool d deliver now i q body app.stream))
    advance-stream waiting doc = inl (unfold advance in ground arith)
    advance-stream (visiting key i) doc = inl (unfold advance in refl)
    advance-stream (holding key i body) doc = elim (Option-cases (pool_at i app.stream.pools)) [
      | inl e ↦ inl (unfold advance in ground arith)
      | inr (q, e) ↦ inr (i, q, body, e, doc, unfold advance in ground arith)
    ]
    advance-stream checking doc = inl (unfold advance in ground arith)
    advance-stream ended doc = inl (unfold advance in refl)

    advance-HasDocument :
        (w : Worker)
        → Documents d wire value is_document laws (filtered_read codec app)
        → HasDocument (advance codec d deliver now app w).1
    advance-HasDocument waiting docs = elim (Option-cases app.storage.watcher) [
      | inl e ↦
          let f : (advance codec d deliver now app waiting).1 ≡ checking =
            unfold advance in ground arith in
          subst HasDocument (sym f) tt
      | inr (_, e) ↦
          let f : (advance codec d deliver now app waiting).1 ≡ waiting =
            unfold advance in ground arith in
          subst HasDocument (sym f) tt
    ]
    advance-HasDocument (visiting key i) docs =
        unfold advance in
        Visited-HasDocument app key i (visit codec key i app) docs (visit-Visited codec app key i)
    advance-HasDocument (holding key i body) docs =
        let f : (advance codec d deliver now app (holding key i body)).1 ≡ visiting key (suc i) =
          unfold advance in ground arith in
        subst HasDocument (sym f) tt
    advance-HasDocument checking docs = elim (Option-cases app.storage.storage) [
      | inl e ↦
          let f : (advance codec d deliver now app checking).1 ≡ checking =
            unfold advance in ground arith in
          subst HasDocument (sym f) tt
      | inr (active, e) ↦
          let f : (advance codec d deliver now app checking).1
              ≡ (if active then waiting else ended) =
            unfold advance in ground arith in
          subst HasDocument (sym f) (elim (Bool-cases active) [ inl a ↦ rw a tt | inr a ↦ rw a tt ])
    ]
    advance-HasDocument ended docs = unfold advance in tt

    -- Only the stream changes.
    advance-app :
        (w : Worker)
        → (advance codec d deliver now app w).0
          ≡ record app { stream = (advance codec d deliver now app w).0.stream }
    unfolding advance
    advance-app waiting = ground arith
    advance-app (visiting key i) = refl
    advance-app (holding key i body) = ground arith
    advance-app checking = ground arith
    advance-app ended = refl

  pub stream-AlwaysDocuments :
      (app : Server) (s : Stream)
      → AlwaysDocuments app
      → AlwaysDocuments (record app { stream = s })
  stream-AlwaysDocuments app s docs db leads key body e =
      docs db leads key body (sym (read-stream codec (record app { storage = db }) s key) ∙ e)

  received-HasDocument : (key : Text) → HasDocument (received key)
  received-HasDocument key = elim (Bool-cases (is_empty key)) [
    | inl e ↦
        let f : received key ≡ checking = unfold received in ground arith in
        subst HasDocument (sym f) tt
    | inr e ↦
        let f : received key ≡ visiting key 1 = unfold received in ground arith in
        subst HasDocument (sym f) tt
  ]

  put-HasDocument :
      (i : ℕ) (w : Worker) (workers : ℕ → Worker)
      → HasDocument w
      → ((j : ℕ) → HasDocument (workers j))
      → (j : ℕ) → HasDocument (put i w workers j)
  put-HasDocument i w workers h hs j = elim (Bool-cases (i == j)) [
    | inl e ↦ rw e h
    | inr e ↦ rw e (hs j)
  ]

  -- All that is read, and all that the readers hold.
  pub record HasDocuments (s : System) : Type 0 where
    pub held : (i : ℕ) → HasDocument (s.workers i)
    pub read : AlwaysDocuments s.app

  pub Step-HasDocuments :
      (n : ℕ) (s t : System) → Step codec merge d deliver n s t → HasDocuments s → HasDocuments t
  Step-HasDocuments n s t (write q told) h = record {
    held = h.held;
    read = λ db leads. h.read db (written q told leads);
  }
  Step-HasDocuments n s t (receive i before after e lt idle w) h = record {
    held = put-HasDocument i (received e.key) s.workers (received-HasDocument e.key) h.held;
    read = λ db leads. h.read db (taken before after e w leads);
  }
  Step-HasDocuments n s t (work i now lt) h =
      unfold turn in
      let app' = advance codec d deliver now s.app (s.workers i) in
      record {
        held =
            put-HasDocument i app'.1 s.workers
              (advance-HasDocument now s.app (s.workers i) (h.read s.app.storage here)) h.held;
        read =
            subst AlwaysDocuments (sym (advance-app now s.app (s.workers i)))
              (stream-AlwaysDocuments s.app app'.0.stream h.read);
      }
