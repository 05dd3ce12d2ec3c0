-- ===== src/Client/Retries.antt =====
-- The outer loop of client/client.go: when it ends, and how long it waits.
use mathlib.Core.List.{append-nil, append_assoc}
use ooo.Base.{
  ℕ, zero, suc, ◌+◌, Bool, true, false, ◌||◌, List, [], ◌∷◌, ◌++◌, Option, Text, ◌≡◌, refl, ◌∙◌,
  ◌↔◌, sym, arith,
}
use ooo.Meta.{Codec}
use ooo.Messages.{Wire}
use ooo.Client.{Client, Attempt, failed_dial, connection, wait_before, read_loop, subscribe}

-- Some connection ended with its context cancelled.
abbrev pub was_cancelled : List Attempt → Bool
was_cancelled [] = false
was_cancelled (failed_dial ∷ attempts) = was_cancelled attempts
was_cancelled (connection messages cancelled ∷ attempts) = cancelled || was_cancelled attempts

-- Connections that bring nothing, and the waits after them.
abbrev pub silent : ℕ → List Attempt
silent zero = []
silent (suc n) = connection [] false ∷ silent n

abbrev pub waits_from : ℕ → ℕ → List ℕ
waits_from retries zero = []
waits_from retries (suc n) = wait_before (suc retries) ∷ waits_from (suc retries) n

module _ {T : Type 0} (codec : Codec) (wire : Wire) (decode_item : Text → Option T)
    (is_list : Bool) where
  -- The loop of a subscription ends exactly if some connection ended with the context cancelled;
  -- dials that fail never end it, whatever is cancelled meanwhile.
  pub subscribe_iff :
      (attempts : List Attempt) (c : Client T)
      → ((subscribe codec wire decode_item is_list attempts c).0 ≡ true)
        ↔ (was_cancelled attempts ≡ true)
  unfolding subscribe
  subscribe_iff [] c = (λ h. h, λ h. h)
  subscribe_iff (failed_dial ∷ attempts) c =
      subscribe_iff attempts (record c { waits = c.waits ++ 2000 ∷ [] })
  subscribe_iff (connection messages true ∷ attempts) c = (λ h. refl, λ h. refl)
  subscribe_iff (connection messages false ∷ attempts) c =
      let c' = read_loop codec wire decode_item is_list messages c in
      subscribe_iff attempts (record c' {
        retry_count = suc c'.retry_count;
        waits = c'.waits ++ wait_before (suc c'.retry_count) ∷ [];
      })

  state-same :
      (c : Client T) (r r' : ℕ) (w w' : List ℕ)
      → r ≡ r'
      → w ≡ w'
      → ◌≡◌ {A = Bool × Client T}
          (false, record c { retry_count = r; waits = w })
          (false, record c { retry_count = r'; waits = w' })
  state-same c r r' w w' e f = rw (e, f)

  -- After connections that bring nothing, none of them with the context cancelled, the
  -- subscription goes on: its count of retries is the old one and their number, and it has waited
  -- after each for the time that the count gives.
  subscribe-silent :
      (n : ℕ) (c : Client T)
      → subscribe codec wire decode_item is_list (silent n) c ≡ (
        false,
        record c { retry_count = c.retry_count + n; waits = c.waits ++ waits_from c.retry_count n },
      )
  unfolding subscribe read_loop
  subscribe-silent zero c = state-same c _ _ _ _ (omega arith) (sym (append-nil c.waits))
  subscribe-silent (suc n) c =
      let c' : Client T = record c {
        retry_count = suc c.retry_count;
        waits = c.waits ++ wait_before (suc c.retry_count) ∷ [];
      } in
      subscribe-silent n c'
      ∙ state-same c _ _ _ _ (omega arith) (
          append_assoc c.waits (wait_before (suc c.retry_count) ∷ [])
            (waits_from (suc c.retry_count) n))
