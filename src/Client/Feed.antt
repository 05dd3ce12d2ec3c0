-- ===== src/Client/Feed.antt =====
-- The inner loop of client/client.go on the messages of a pool of stream/stream.go.
use ooo.Base.{
  ◌+◌, Bool, true, List, [], ◌∷◌, ◌++◌, Option, none, some, Text, ◌≡◌, ◌∙◌, ap, arith, Bool-cases,
  Option-cases, inl, inr, ℤ, All, length, length-append,
}
use ooo.Key.{peer}
use ooo.Meta.{Object, Codec}
use ooo.Stream.{Pool, Differ, pool_update, set_pool_cache}
use ooo.Messages.{Wire, patch_cache, patch_list}
use ooo.Sync.{IsWire, Holds, Documents, update_lem}
use ooo.Client.{Client, items, on_list, read_loop}

abbrev pub Round : Type 0
Round = (Text → Option Text) × (Text → ℤ) × Text

module _ (d : Differ) (force no_patch : Bool) where
  -- The messages that broadcasts make for the connections of a pool, and the pool after them.
  abbrev pub messages_of : List Round → Pool → List Text × Pool
  messages_of [] p = ([], p)
  messages_of ((get, now, path) ∷ rounds) p =
      let u = pool_update d force no_patch get now path p in
      let rest = messages_of rounds u.0 in
      (elim u.1 [ none ↦ rest.0 | some message ↦ message ∷ rest.0 ], rest.1)

module _ {T : Type 0} (codec : Codec) (d : Differ) (wire : Wire) {V : Type 0} (value : Text → V)
    (is_document : Text → Bool) (laws : IsWire d wire value is_document)
    (decode_item : Text → Option T) where
  on_list-some :
      (message cache : Text) (objs : List Object) (c : Client T)
      → patch_cache wire message c.cache ≡ (cache, none)
      → codec.decode_list cache ≡ some objs
      → on_list codec wire decode_item message c ≡ (
        true,
        record c {
          cache = cache;
          retry_count = 0;
          delivered = c.delivered ++ items codec wire decode_item objs ∷ [];
        },
      )
  unfolding on_list patch_list
  on_list-some message cache objs c p e = ground arith

  -- Every text that means what a document means is a list.
  abbrev pub Lists : Type 0
  Lists =
      (body client : Text)
      → is_document body ≡ true
      → value client ≡ value body
      → (objs : List Object) × (codec.decode_list client ≡ some objs)

  -- What a client's cache is to a pool after an update, when it has not yet got the message.
  abbrev Pending : Pool × Option Text → Text → Type 0
  Pending (p, none) client = value client ≡ value p.cache.body
  Pending (p, some message) client =
      (is_document p.cache.body ≡ true)
      × Holds d wire value is_document laws p.cache.body (patch_cache wire message client)

  -- What the client has after the messages: a cache like the pool's, and a call of the callback for each.
  abbrev pub Served : List Text × Pool → Client T → Type 0
  Served m c =
      (value (read_loop codec wire decode_item true m.0 c).cache ≡ value m.1.cache.body)
      × (length (read_loop codec wire decode_item true m.0 c).delivered
          ≡ length c.delivered + length m.0)

  read_loop-next :
      (message : Text) (messages : List Text) (c c' : Client T)
      → on_list codec wire decode_item message c ≡ (true, c')
      → read_loop codec wire decode_item true (message ∷ messages) c
        ≡ read_loop codec wire decode_item true messages c'
  unfolding read_loop
  read_loop-next message messages c c' e = rw e

  module _ (force no_patch : Bool) where
    round-Pending :
        (get : Text → Option Text) (now : Text → ℤ) (path client : Text) (p : Pool)
        → Documents d wire value is_document laws get
        → value client ≡ value p.cache.body
        → Pending (pool_update d force no_patch get now path p) client
    unfolding pool_update set_pool_cache
    round-Pending get now path client p docs h = elim (Bool-cases (peer p.key path)) [
      | inr e ↦ rw e h
      | inl e ↦ elim (Option-cases (get p.key)) [
        | inl g ↦ rw (e, g) h
        | inr (body, g) ↦
            rw (e, g)
              (
                docs p.key body g,
                update_lem d wire value is_document laws force no_patch p.cache body client
                    (now p.key) (docs p.key body g) h,
              )
      ]
    ]

    serve :
        (u : Pool × Option Text) (rest : List Text × Pool) (c : Client T)
        → Lists
        → Pending u c.cache
        → ((c' : Client T) → value c'.cache ≡ value u.0.cache.body → Served rest c')
        → Served (elim u.1 [ none ↦ rest.0 | some message ↦ message ∷ rest.0 ], rest.1) c
    serve (p, none) rest c lists h later = later c h
    serve (p, some message) rest c lists (doc, (v, e)) later =
        let (objs, o) = lists p.cache.body (patch_cache wire message c.cache).0 doc v in
        let c' : Client T = record c {
          cache = (patch_cache wire message c.cache).0;
          retry_count = 0;
          delivered = c.delivered ++ items codec wire decode_item objs ∷ [];
        } in
        let next = read_loop-next message rest.0 c c' (
          on_list-some message _ objs c (ap (λ f. ((patch_cache wire message c.cache).0, f)) e)
            o) in
        let (value_kept, calls) = later c' v in
        (
          ap (λ t. value t.cache) next ∙ value_kept,
          ap (λ t. length t.delivered) next
              ∙ omega (
                arith,
                calls,
                length-append c.delivered (items codec wire decode_item objs ∷ []),
              ),
        )

    -- A client of a list that starts with what the cache of a pool means and reads the messages of
    -- any broadcasts of the pool holds a cache that means what the cache of the pool means then,
    -- and has called its callback once for each message. The reads return documents, every text
    -- that means what a document means decodes to a list, and the libraries for JSON and JSON
    -- patches do what `IsWire` says.
    pub read_loop_lem :
        (rounds : List Round) (p : Pool) (c : Client T)
        → All (λ r. Documents d wire value is_document laws r.0) rounds
        → Lists
        → value c.cache ≡ value p.cache.body
        → Served (messages_of d force no_patch rounds p) c
    read_loop_lem [] p c docs lists h = unfold read_loop in (h, omega arith)
    read_loop_lem ((get, now, path) ∷ rounds) p c docs lists h =
        let u = pool_update d force no_patch get now path p in
        serve u (messages_of d force no_patch rounds u.0) c lists
          (round-Pending get now path c.cache p docs.0 h)
          (λ c' k. read_loop_lem rounds u.0 c' docs.1 lists k)
