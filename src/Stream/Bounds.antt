-- ===== src/Stream/Bounds.antt =====
-- How long the messages are that `Broadcast` of stream/stream.go writes.
use ooo.Base.{
  ℕ, zero, suc, ◌+◌, ◌/◌, ◌%◌, ◌≤◌, Bool, true, false, List, [], ◌∷◌, ◌++◌, Option, none, some,
  Text, codes, length, length-append, All, ◌≡◌, refl, sym, subst, inl, inr, arith, Bool-cases,
  Option-cases, ℤ, pos, negsuc,
}
use ooo.Key.{peer}
use ooo.Key.Hex.{hex_digit, hex_digits, format_int}
use ooo.Stream.{Stream, Cache, Pool, Differ, patch_update, pool_update, frame, broadcast}
use ooo.Stream.Broadcast.{written_to, update_written, all_written, broadcast_lem, wrote}

hex_digits-le : (f n : ℕ) (acc : Text) → length (hex_digits f n acc) ≤ f + length acc
unfolding hex_digits
hex_digits-le zero n acc = omega arith
hex_digits-le (suc f) n acc = ground (arith, hex_digits-le f (n / 16) (hex_digit (n % 16) ∷ acc))

format_int-le : (z : ℤ) → length (format_int z) ≤ 17
unfolding format_int
format_int-le (pos n) = omega (arith, hex_digits-le 16 n [])
format_int-le (negsuc n) = omega (arith, hex_digits-le 16 (suc n) [])

frame-le :
    (body : Text) (snapshot : Bool) (version : ℤ)
    → length (frame body snapshot version) ≤ length body + 56
unfolding frame
frame-le body true version = omega (
  arith,
  length-append (format_int version) (codes "\",\"data\":" ++ (body ++ codes "}")),
  length-append body (codes "}"),
  format_int-le version,
)
frame-le body false version = omega (
  arith,
  length-append (format_int version) (codes "\",\"data\":" ++ (body ++ codes "}")),
  length-append body (codes "}"),
  format_int-le version,
)

patch_update-le :
    (d : Differ) (no_patch : Bool) (cache : Cache) (body : Text) (now : ℤ)
    → length (patch_update d false no_patch cache body now).body ≤ length body
unfolding patch_update
patch_update-le d no_patch cache body now = ground arith

All-append : {A : Type 0} (P : A → Type 0) (xs ys : List A) → All P xs → All P ys → All P (xs ++ ys)
All-append P [] ys h k = k
All-append P (x ∷ xs) ys h k = (h.0, All-append P xs ys h.1 k)

-- A message is at most 56 bytes longer than a document of a size.
abbrev pub Fits : ℕ → ℕ × Text → Type 0
Fits size m = length m.1 ≤ size + 56

module _ (d : Differ) (deliver : ℕ → Bool) (get : Text → Option Text) (now : Text → ℤ) (path : Text)
    (no_patch : Bool) (size : ℕ)
    (small : (key body : Text) → get key ≡ some body → length body ≤ size) where
  -- The message of a pool.
  abbrev IsSmall : Option Text → Type 0
  IsSmall none = Unit
  IsSmall (some m) = length m ≤ size + 56

  pool_update-IsSmall : (p : Pool) → IsSmall (pool_update d false no_patch get now path p).1
  pool_update-IsSmall p = elim (Bool-cases (peer p.key path)) [
    | inr e ↦ told none (unfold pool_update in ground arith) tt
    | inl e ↦ elim (Option-cases (get p.key)) [
      | inl r ↦ told none (unfold pool_update in ground arith) tt
      | inr (body, r) ↦
          let u = patch_update d false no_patch p.cache body (now p.key) in
          told (some (frame u.body u.snapshot u.version)) (unfold pool_update in ground arith) (
            omega (
              arith,
              frame-le u.body u.snapshot u.version,
              patch_update-le d no_patch p.cache body (now p.key),
              small p.key body r,
            ))
    ]
  ]
    where
      told :
          (m : Option Text)
          → (pool_update d false no_patch get now path p).1 ≡ m
          → IsSmall m
          → IsSmall (pool_update d false no_patch get now path p).1
      told m e h = subst IsSmall (sym e) h

  written_to-Fits :
      (clients : List ℕ) (m : Text)
      → length m ≤ size + 56
      → All (Fits size) (written_to deliver clients m)
  written_to-Fits [] m h = tt
  written_to-Fits (c ∷ clients) m h = elim (Bool-cases (deliver c)) [
    | inl e ↦ rw e (h, written_to-Fits clients m h)
    | inr e ↦ rw e (written_to-Fits clients m h)
  ]

  update_written-Fits :
      (clients : List ℕ) (m : Option Text)
      → IsSmall m
      → All (Fits size) (update_written deliver clients m)
  update_written-Fits clients none h = tt
  update_written-Fits clients (some m) h = written_to-Fits clients m (h)

  all_written-Fits :
      (pools : List Pool)
      → All (Fits size) (all_written d deliver get now path false no_patch pools)
  all_written-Fits [] = tt
  all_written-Fits (p ∷ pools) =
      All-append (Fits size)
        (update_written deliver p.connections (pool_update d false no_patch get now path p).1)
        (all_written d deliver get now path false no_patch pools)
        (update_written-Fits p.connections (pool_update d false no_patch get now path p).1
          (pool_update-IsSmall p))
        (all_written-Fits pools)

module _ (d : Differ) (deliver : ℕ → Bool) (get : Text → Option Text) (now : Text → ℤ)
    (path : Text) where
  -- Without `ForcePatch`, if all documents that are read are at most of a size, and all messages
  -- that were written are at most 56 longer than that, this holds of the messages that are written
  -- after a broadcast too.
  pub broadcast-Fits :
      (size : ℕ) (s : Stream)
      → s.force_patch ≡ false
      → ((key body : Text) → get key ≡ some body → length body ≤ size)
      → All (Fits size) s.written
      → All (Fits size) (broadcast d deliver get now path s).written
  broadcast-Fits size s f small h = by_pools s.pools refl
    where
      by_pools :
          (pools : List Pool)
          → s.pools ≡ pools
          → All (Fits size) (broadcast d deliver get now path s).written
      by_pools [] e =
          let same : broadcast d deliver get now path s ≡ s = unfold broadcast in ground arith in
          subst (λ t. All (Fits size) t.written) (sym same) h
      by_pools (first ∷ pools) e =
          subst (λ t. All (Fits size) t.written)
            (sym (broadcast_lem d deliver get now path first pools s e))
            (unfold wrote in
              All-append (Fits size) s.written
                (all_written d deliver get now path s.force_patch s.no_patch pools) h
                (subst
                  (λ b. All (Fits size) (all_written d deliver get now path b s.no_patch pools))
                  (sym f) (all_written-Fits d deliver get now path s.no_patch size small pools)))
