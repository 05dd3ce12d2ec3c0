-- ===== src/Sync.antt =====
-- The server's side of an update, `Patch` of stream/stream.go, against the client's, `patch` of
-- messages/messages.go: a client that starts with what the server has keeps up with it.
use ooo.Base.{
  Bool, true, false, not, ◌&&◌, List, [], ◌∷◌, Option, none, some, Text, text_eq, text_eq_iff,
  codes, is_empty, length, ltb, ◌≡◌, refl, ◌⊎◌, ◌∙◌, sym, subst, ap, ℤ, if◌then◌else◌, arith,
  Bool-cases, Option-cases, inl, inr, All,
}
use ooo.Key.Hex.{format_int}
use ooo.Key.{peer}
use ooo.Stream.{Cache, Pool, Differ, Update, pool_update, set_pool_cache, patch_update, frame}
use ooo.Messages.{Wire, Error, decode_buffer, apply_operations, patch_cache}

-- What the JSON and the JSON patch libraries document, as far as an update needs it. `value` is
-- what a document means: `patch_apply` says that a patch, written and read, turns a document that
-- means the first one into one that means the second, and `patch_nothing` that the patch without
-- operations comes of equal documents. A message that carries a document is read back with its
-- version and with bytes that mean the document, which may lose the space around it, as the line
-- feed that an encoder ends with; a written patch has none and is read back as it is.
pub record IsWire (d : Differ) (wire : Wire) {V : Type 0} (value : Text → V)
    (is_document : Text → Bool) : Type 0 where
  pub read_document :
      (body : Text) (version : ℤ)
      → is_document body ≡ true
      → (b : Text) × (wire.decode_message (frame body true version)
          ≡ (record { body = b; version = format_int version; snapshot = true }, false))
        × (is_empty b ≡ false)
        × (value b ≡ value body)
  pub not_empty : (body : Text) → is_document body ≡ true → is_empty body ≡ false
  pub read_patch :
      (operations : List Text) (o : Text) (version : ℤ)
      → d.encode_patch operations ≡ some o
      → (wire.decode_message (frame o false version)
          ≡ (record { body = o; version = format_int version; snapshot = false }, false))
        × (is_empty o ≡ false)
  pub patch_apply :
      (a b c : Text) (operations : List Text) (o : Text)
      → d.create_patch a b ≡ some operations
      → d.encode_patch operations ≡ some o
      → value c ≡ value a
      → (read : List Text) × (m : Text) × (wire.decode_patch o ≡ some (some read))
        × (wire.apply_patch read c ≡ some (some m))
        × (value m ≡ value b)
  pub patch_nothing :
      (a b : Text) (operations : List Text)
      → d.create_patch a b ≡ some operations
      → d.encode_patch operations ≡ some (codes "[]")
      → value a ≡ value b

module _ (d : Differ) (wire : Wire) {V : Type 0} (value : Text → V) (is_document : Text → Bool)
    (laws : IsWire d wire value is_document) where
  read-operations :
      (o client : Text) (operations : List Text) (version : ℤ)
      → d.encode_patch operations ≡ some o
      → patch_cache wire (frame o false version) client
        ≡ (if text_eq o (codes "[]") then (client, none) else apply_operations wire o client)
  unfolding patch_cache decode_buffer
  read-operations o client operations version e =
      let (read, filled) = laws.read_patch operations o version e in ground arith

  -- The client's cache means what a document means, and there was no error.
  abbrev pub Holds : Text → Text × Option Error → Type 0
  Holds body r = (value r.0 ≡ value body) × (r.1 ≡ none)

  pub snapshot-Holds :
      (body client : Text) (version : ℤ)
      → is_document body ≡ true
      → Holds body (patch_cache wire (frame body true version) client)
  unfolding patch_cache decode_buffer
  snapshot-Holds body client version h =
      let (b, read, filled, same) = laws.read_document body version h in
      let e : patch_cache wire (frame body true version) client ≡ (b, none) = ground arith in
      rw e (same, refl)

  operations-Holds :
      (cached body client o : Text) (operations : List Text) (version : ℤ)
      → d.create_patch cached body ≡ some operations
      → d.encode_patch operations ≡ some o
      → value client ≡ value cached
      → Holds body (patch_cache wire (frame o false version) client)
  unfolding apply_operations
  operations-Holds cached body client o operations version c e h =
      rw (read-operations o client operations version e)
        (elim (Bool-cases (text_eq o (codes "[]"))) [
          | inl s ↦
              let nothing =
                laws.patch_nothing cached body operations c
                  (e ∙ ap some ((text_eq_iff o (codes "[]")).0 s)) in
              rw (s, if◌then◌else◌) (h ∙ nothing, refl)
          | inr s ↦
              let (read, m, r, a, v) = laws.patch_apply cached body client operations o c e h in
              rw (s, if◌then◌else◌, apply_operations, r, a) (v, refl)
        ])

  patch_update-cases :
      (force no_patch : Bool) (cache : Cache) (body : Text) (now : ℤ)
      → (patch_update d force no_patch cache body now
          ≡ record { body = body; snapshot = true; version = now })
        ⊎ ((operations : List Text) × (o : Text) × (d.create_patch cache.body body
              ≡ some operations)
            × (d.encode_patch operations ≡ some o)
            × (patch_update d force no_patch cache body now
                ≡ record { body = o; snapshot = false; version = now }))
  unfolding patch_update
  patch_update-cases force no_patch cache body now = elim (Bool-cases no_patch) [
    | inl n ↦ inl (ground arith)
    | inr n ↦ elim (Option-cases (d.create_patch cache.body body)) [
      | inl c ↦ inl (ground arith)
      | inr (operations, c) ↦ elim (Option-cases (d.encode_patch operations)) [
        | inl e ↦ inl (ground arith)
        | inr (o, e) ↦ elim (Bool-cases (not force && ltb (length body) (length o))) [
          | inl l ↦ inl (ground arith)
          | inr l ↦ inr (operations, o, c, e, ground arith)
        ]
      ]
    ]
  ]

  -- What the client makes of an update.
  abbrev pub received : Text → Update → Text × Option Error
  received client u = patch_cache wire (frame u.body u.snapshot u.version) client

  -- A client whose cache means what the cache of the pool means, and that gets the update of the
  -- pool to a document, holds a cache that means the document, and there is no error, whatever the
  -- update is, a snapshot or operations. The libraries for JSON and JSON patches do what `IsWire`
  -- says.
  pub update_lem :
      (force no_patch : Bool) (cache : Cache) (body client : Text) (now : ℤ)
      → is_document body ≡ true
      → value client ≡ value cache.body
      → Holds body (received client (patch_update d force no_patch cache body now))
  update_lem force no_patch cache body client now h k =
      elim (patch_update-cases force no_patch cache body now) [
        | inl e ↦
            subst (λ u. Holds body (received client u)) (sym e) (snapshot-Holds body client now h)
        | inr (operations, o, c, e, u) ↦
            subst (λ v. Holds body (received client v)) (sym u)
              (operations-Holds cache.body body client o operations now c e k)
      ]

  -- What a read returns is a document.
  abbrev pub Documents : (Text → Option Text) → Type 0
  Documents get = (key body : Text) → get key ≡ some body → is_document body ≡ true

  -- A client's cache after a message of its pool, if there was one.
  abbrev pub heard : Text → Option Text → Text
  heard client none = client
  heard client (some bytes) = (patch_cache wire bytes client).0

  module _ (force no_patch : Bool) where
    heard-pool_update :
        (get : Text → Option Text) (now : Text → ℤ) (path client : Text) (p : Pool)
        → Documents get
        → value client ≡ value p.cache.body
        → let (p', message) = pool_update d force no_patch get now path p in
          value (heard client message) ≡ value p'.cache.body
    unfolding pool_update set_pool_cache
    heard-pool_update get now path client p docs h = elim (Bool-cases (peer p.key path)) [
      | inr e ↦ rw e h
      | inl e ↦ elim (Option-cases (get p.key)) [
        | inl g ↦ rw (e, g) h
        | inr (body, g) ↦
            rw (e, g)
              (update_lem force no_patch p.cache body client (now p.key) (docs p.key body g) h).0
      ]
    ]

    -- A pool and a client of it, after the broadcasts of some paths.
    unfoldable pub follow :
        List ((Text → Option Text) × (Text → ℤ) × Text) → Pool → Text → Pool × Text
    follow [] p client = (p, client)
    follow ((get, now, path) ∷ rounds) p client =
        let (p', message) = pool_update d force no_patch get now path p in
        follow rounds p' (heard client message)

    -- A client whose cache means what the cache of its pool means still has such a cache after any
    -- broadcasts, of whatever paths, if what the reads return are documents, and if the libraries
    -- for JSON and JSON patches do what `IsWire` says.
    pub follow_lem :
        (rounds : List ((Text → Option Text) × (Text → ℤ) × Text)) (p : Pool) (client : Text)
        → All (λ r. Documents r.0) rounds
        → value client ≡ value p.cache.body
        → value (follow rounds p client).1 ≡ value (follow rounds p client).0.cache.body
    unfolding follow
    follow_lem [] p client docs h = h
    follow_lem ((get, now, path) ∷ rounds) p client docs h =
        follow_lem rounds _ _ docs.1 (heard-pool_update get now path client p docs.0 h)
