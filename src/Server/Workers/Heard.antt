-- ===== src/Server/Workers/Heard.antt =====
-- What a client holds that applies the messages written to its connection (messages/messages.go),
-- when a pool is updated (stream/stream.go).
use ooo.Base.{
  ℕ, ◌==◌, Bool, true, false, List, [], ◌∷◌, ◌++◌, some, Text, count, ◌≡◌, ◌≢◌, refl, ◌∙◌, sym, ap,
  subst, inl, inr, if◌then◌else◌, arith, Bool-cases, ℤ,
}
use ooo.Stream.{Stream, Pool, Differ, patch_update, frame, set_pool_cache}
use ooo.Stream.Broadcast.{wrote, written_to, send_all-wrote}
use ooo.Messages.{Wire, patch_cache}
use ooo.Sync.{IsWire, update_lem}
use ooo.Server.Workers.{pool_at, set_pool_at, update_pool}
use ooo.Server.Workers.Places.{pool_at-set, update_pool-pools}

-- A client's cache after the messages that were written to its connection.
unfoldable pub heard_all : Wire → ℕ → Text → List (ℕ × Text) → Text
heard_all wire client cache [] = cache
heard_all wire client cache ((c, m) ∷ written) =
    if c == client
    then heard_all wire client (patch_cache wire m cache).0 written
    else heard_all wire client cache written

module _ (wire : Wire) (client : ℕ) where
  pub heard_all-append :
      (cache : Text) (a b : List (ℕ × Text))
      → heard_all wire client cache (a ++ b)
        ≡ heard_all wire client (heard_all wire client cache a) b
  unfolding heard_all
  heard_all-append cache [] b = refl
  heard_all-append cache ((c, m) ∷ a) b = elim (Bool-cases (c == client)) [
    | inl e ↦ rw e (heard_all-append (patch_cache wire m cache).0 a b)
    | inr e ↦ rw e (heard_all-append cache a b)
  ]

  module _ (deliver : ℕ → Bool) (m : Text) where
    pub heard_all-none :
        (cache : Text) (clients : List ℕ)
        → count client clients ≡ 0
        → heard_all wire client cache (written_to deliver clients m) ≡ cache
    unfolding heard_all
    heard_all-none cache [] h = refl
    heard_all-none cache (c ∷ clients) h =
        let n : (c == client) ≡ false = ground arith in
        let rest = heard_all-none cache clients (ground arith) in
        elim (Bool-cases (deliver c)) [ inl e ↦ rw (e, n) rest | inr e ↦ rw e rest ]

    pub heard_all-once :
        (cache : Text) (clients : List ℕ)
        → deliver client ≡ true
        → count client clients ≡ 1
        → heard_all wire client cache (written_to deliver clients m) ≡ (patch_cache wire m cache).0
    unfolding heard_all
    heard_all-once cache [] r h = absurd (ground arith)
    heard_all-once cache (c ∷ clients) r h = elim (Bool-cases (c == client)) [
      | inl e ↦
          let same : client ≡ c = ground arith in
          let d : deliver c ≡ true = subst (λ j. deliver j ≡ true) same r in
          rw (d, e) (heard_all-none (patch_cache wire m cache).0 clients (ground arith))
      | inr e ↦
          let rest = heard_all-once cache clients r (ground arith) in
          elim (Bool-cases (deliver c)) [ inl d ↦ rw (d, e) rest | inr d ↦ rw d rest ]
    ]

update_pool-written :
    (d : Differ) (deliver : ℕ → Bool) (now : ℤ) (i : ℕ) (p : Pool) (body : Text) (s : Stream)
    → let u = patch_update d s.force_patch s.no_patch p.cache body now in
      (update_pool d deliver now i p body s).written
      ≡ s.written ++ written_to deliver p.connections (frame u.body u.snapshot u.version)
unfolding update_pool wrote
update_pool-written d deliver now i p body s =
    ap (λ t. t.written) (send_all-wrote deliver _ p.connections _)

module _ (d : Differ) (wire : Wire) {V : Type 0} (value : Text → V) (is_document : Text → Bool)
    (laws : IsWire d wire value is_document) (deliver : ℕ → Bool) (client : ℕ) (cache : Text)
    (k : ℕ) where
  -- The client is in one pool, once, and its cache means what that of the pool means.
  pub record IsJoined (s : Stream) : Type 0 where
    pub only :
        (i : ℕ) (p : Pool)
        → pool_at i s.pools ≡ some p
        → count client p.connections ≡ (if i == k then 1 else 0)
    pub follows :
        (p : Pool)
        → pool_at k s.pools ≡ some p
        → value (heard_all wire client cache s.written) ≡ value p.cache.body

  module _ (now : ℤ) (j : ℕ) (q : Pool) (body : Text) (s : Stream) (at : pool_at j s.pools ≡ some q)
      (h : IsJoined s) where
    abbrev updated : Stream
    updated = update_pool d deliver now j q body s

    abbrev heard : Text
    heard = heard_all wire client cache s.written

    at_before :
        (i : ℕ) (p : Pool)
        → pool_at i updated.pools ≡ some p
        → pool_at i (set_pool_at j (set_pool_cache body now q) s.pools) ≡ some p
    at_before i p e =
        subst (λ t. pool_at i t ≡ some p) (update_pool-pools d deliver now j q body s) e

    only_after :
        (i : ℕ) (p : Pool)
        → pool_at i updated.pools ≡ some p
        → count client p.connections ≡ (if i == k then 1 else 0)
    only_after i p e =
        elim (pool_at-set i j (set_pool_cache body now q) p s.pools (at_before i p e)) [
          | inr (n, old) ↦ h.only i p old
          | inl (same, new) ↦
              let there : pool_at i s.pools ≡ some q =
                subst (λ t. pool_at t s.pools ≡ some q) (sym same) at in
              ap (λ t. count client t.connections) new ∙ (unfold set_pool_cache in h.only i q there)
        ]

    -- The client hears the messages of its own pool, and no others.
    heard-own :
        deliver client ≡ true
        → is_document body ≡ true
        → j ≡ k
        → value (heard_all wire client cache updated.written) ≡ value body
    heard-own r doc same =
        let there : pool_at k s.pools ≡ some q = subst (λ t. pool_at t s.pools ≡ some q) same at in
        let u = patch_update d s.force_patch s.no_patch q.cache body now in
        let message = frame u.body u.snapshot u.version in
        let once : count client q.connections ≡ 1 = h.only j q at ∙ ground arith in
        ap (λ t. value (heard_all wire client cache t))
          (update_pool-written d deliver now j q body s)
        ∙ ap value (
            heard_all-append wire client cache s.written (written_to deliver q.connections message)
            ∙ heard_all-once wire client deliver message heard q.connections r once)
        ∙ (update_lem d wire value is_document laws s.force_patch s.no_patch q.cache body heard now
            doc (h.follows q there)).0

    heard-other : j ≢ k → heard_all wire client cache updated.written ≡ heard
    heard-other n =
        let u = patch_update d s.force_patch s.no_patch q.cache body now in
        let message = frame u.body u.snapshot u.version in
        let never : count client q.connections ≡ 0 = h.only j q at ∙ ground arith in
        ap (heard_all wire client cache) (update_pool-written d deliver now j q body s)
        ∙ heard_all-append wire client cache s.written (written_to deliver q.connections message)
        ∙ heard_all-none wire client deliver message heard q.connections never

    pub update_pool-IsJoined : deliver client ≡ true → is_document body ≡ true → IsJoined updated
    update_pool-IsJoined r doc = record {
      only = only_after;
      follows = λ p e.
          elim (pool_at-set k j (set_pool_cache body now q) p s.pools (at_before k p e)) [
            | inl (same, new) ↦
                heard-own r doc (sym same)
                ∙ ap value (unfold set_pool_cache in ap (λ t. t.cache.body) (sym new))
            | inr (n, old) ↦ ap value (heard-other (λ e. n (sym e))) ∙ h.follows p old
          ];
    }
