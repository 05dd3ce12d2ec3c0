-- ===== src/Stream/Broadcast.antt =====
-- What `Broadcast` of stream/stream.go writes, to whom, and what it leaves of the pools.
use mathlib.Core.List.{append-nil, append_assoc}
use ooo.Base.{
  Bool, List, [], ◌∷◌, ◌++◌, map, Option, none, some, Text, subst, ◌≡◌, ◌∙◌, sym, ap, ℕ, ℤ,
  if◌then◌else◌, Bool-cases, inl, inr,
}
use ooo.Stream.{
  Stream, Pool, Differ, send, send_all, send_update, pool_update, broadcast_loop, broadcast,
}

-- The connections that a message is written to, with the message, and those that are closed since
-- it cannot be written to them.
abbrev pub written_to : (ℕ → Bool) → List ℕ → Text → List (ℕ × Text)
written_to deliver [] message = []
written_to deliver (c ∷ clients) message =
    (if deliver c then (c, message) ∷ [] else []) ++ written_to deliver clients message

abbrev pub closed_by : (ℕ → Bool) → List ℕ → List ℕ
closed_by deliver [] = []
closed_by deliver (c ∷ clients) = (if deliver c then [] else c ∷ []) ++ closed_by deliver clients

-- The stream after more was written and closed.
unfoldable pub wrote : List (ℕ × Text) → List ℕ → Stream → Stream
wrote w c s = record s { written = s.written ++ w; closed = s.closed ++ c }

wrote-nil : (s : Stream) → s ≡ wrote [] [] s
unfolding wrote
wrote-nil s = rw (append-nil s.written, append-nil s.closed)

wrote-append :
    (w w' : List (ℕ × Text)) (c c' : List ℕ) (s : Stream)
    → wrote w' c' (wrote w c s) ≡ wrote (w ++ w') (c ++ c') s
unfolding wrote
wrote-append w w' c c' s = rw (append_assoc s.written w w', append_assoc s.closed c c')

send-wrote :
    (deliver : ℕ → Bool) (message : Text) (c : ℕ) (s : Stream)
    → send deliver message c s
      ≡ wrote (if deliver c then (c, message) ∷ [] else []) (if deliver c then [] else c ∷ []) s
unfolding send wrote
send-wrote deliver message c s = elim (Bool-cases (deliver c)) [
  | inl e ↦ rw (e, if◌then◌else◌, append-nil s.closed)
  | inr e ↦ rw (e, if◌then◌else◌, append-nil s.written)
]

pub send_all-wrote :
    (deliver : ℕ → Bool) (message : Text) (clients : List ℕ) (s : Stream)
    → send_all deliver message clients s
      ≡ wrote (written_to deliver clients message) (closed_by deliver clients) s
unfolding send_all
send_all-wrote deliver message [] s = wrote-nil s
send_all-wrote deliver message (c ∷ clients) s =
    send_all-wrote deliver message clients (send deliver message c s)
    ∙ ap (wrote (written_to deliver clients message) (closed_by deliver clients))
        (send-wrote deliver message c s)
    ∙ wrote-append _ (written_to deliver clients message) _ (closed_by deliver clients) s

abbrev pub update_written : (ℕ → Bool) → List ℕ → Option Text → List (ℕ × Text)
update_written deliver clients none = []
update_written deliver clients (some message) = written_to deliver clients message

abbrev pub update_closed : (ℕ → Bool) → List ℕ → Option Text → List ℕ
update_closed deliver clients none = []
update_closed deliver clients (some message) = closed_by deliver clients

send_update-wrote :
    (deliver : ℕ → Bool) (clients : List ℕ) (message : Option Text) (s : Stream)
    → send_update deliver clients message s
      ≡ wrote (update_written deliver clients message) (update_closed deliver clients message) s
send_update-wrote deliver clients none s = wrote-nil s
send_update-wrote deliver clients (some message) s = send_all-wrote deliver message clients s

module _ (d : Differ) (deliver : ℕ → Bool) (get : Text → Option Text) (now : Text → ℤ)
    (path : Text) where
  -- What all connections of the pools get, in the pools' order, by the flags of the stream.
  abbrev pub all_written : Bool → Bool → List Pool → List (ℕ × Text)
  all_written force no_patch [] = []
  all_written force no_patch (p ∷ pools) =
      update_written deliver p.connections (pool_update d force no_patch get now path p).1
      ++ all_written force no_patch pools

  abbrev pub all_closed : Bool → Bool → List Pool → List ℕ
  all_closed force no_patch [] = []
  all_closed force no_patch (p ∷ pools) =
      update_closed deliver p.connections (pool_update d force no_patch get now path p).1
      ++ all_closed force no_patch pools

  abbrev pub pools_after : Bool → Bool → List Pool → List Pool
  pools_after force no_patch = map (λ p. (pool_update d force no_patch get now path p).0)

  -- The stream after a visit of the pools, behind those of `done`.
  abbrev pub visited : List Pool → List Pool → Stream → Stream
  visited done pools s =
      record (wrote (all_written s.force_patch s.no_patch pools)
        (all_closed s.force_patch s.no_patch pools) s) {
          pools = done ++ pools_after s.force_patch s.no_patch pools;
        }

  pub broadcast_loop-visited :
      (done pools : List Pool) (s : Stream)
      → broadcast_loop d deliver get now path done pools s ≡ visited done pools s
  unfolding broadcast_loop wrote
  broadcast_loop-visited done [] s = rw (append-nil s.written, append-nil s.closed, append-nil done)
  broadcast_loop-visited done (p ∷ pools) s =
      let u = pool_update d s.force_patch s.no_patch get now path p in
      let w = update_written deliver p.connections u.1 in
      let c = update_closed deliver p.connections u.1 in
      broadcast_loop-visited (done ++ u.0 ∷ []) pools (send_update deliver p.connections u.1 s)
      ∙ ap (visited (done ++ u.0 ∷ []) pools) (send_update-wrote deliver p.connections u.1 s)
      ∙ rw (
        append_assoc done (u.0 ∷ []) (pools_after s.force_patch s.no_patch pools),
        append_assoc s.written w (all_written s.force_patch s.no_patch pools),
        append_assoc s.closed c (all_closed s.force_patch s.no_patch pools),
      )

  -- `Broadcast` passes over the first pool, the clock's. Of every other pool, each connection gets
  -- the message of its pool, in the order of the pools, or is closed if it cannot be written to,
  -- and no connection gets anything else; each pool becomes what its update leaves.
  pub broadcast_lem :
      (clock : Pool) (pools : List Pool) (s : Stream)
      → s.pools ≡ clock ∷ pools
      → broadcast d deliver get now path s ≡ visited (clock ∷ []) pools s
  unfolding broadcast
  broadcast_lem clock pools s h =
      subst
        (λ l.
          elim l [ [] ↦ s | c ∷ q ↦ broadcast_loop d deliver get now path (c ∷ []) q s ]
          ≡ visited (clock ∷ []) pools s)
        (sym h) (broadcast_loop-visited (clock ∷ []) pools s)
