-- ===== src/Stream/Pools.antt =====
-- The pools of stream/stream.go: found by their keys, and never lost.
use mathlib.Core.Option
use ooo.Base.{
  ℕ, Bool, true, false, ◌||◌, List, [], ◌∷◌, ◌++◌, map, none, some, Text, text_eq, text_eq_iff,
  text_eq_refl, ◌≡◌, refl, if◌then◌else◌, arith,
}
use ooo.Stream.{Stream, Pool, no_cache, find_pool, at_pool, open_connection}

pub find_pool-append :
    (key : Text) (pools : List Pool) (q : Pool)
    → find_pool key (pools ++ q ∷ []) ≡ elim (find_pool key pools) [
      | none ↦ if text_eq q.key key then some q else none
      | some p ↦ some p
    ]
unfolding find_pool
find_pool-append key [] q = ground arith
find_pool-append key (p ∷ pools) q = ground (arith, find_pool-append key pools q)

pub find_pool-at_pool :
    (key j : Text) (change : Pool → Pool) (pools : List Pool)
    → ((p : Pool) → (change p).key ≡ p.key)
    → find_pool j (at_pool key change pools)
      ≡ (if text_eq key j then Option.map change (find_pool j pools) else find_pool j pools)
unfolding find_pool at_pool
find_pool-at_pool key j change [] h = ground arith
find_pool-at_pool key j change (p ∷ pools) h = ground (
  arith,
  text_eq_iff p.key key,
  text_eq_iff p.key j,
  text_eq_iff key j,
  text_eq_refl key,
  h p,
  find_pool-at_pool key j change pools h,
)

pub find_pool-map :
    (j : Text) (change : Pool → Pool) (pools : List Pool)
    → ((p : Pool) → (change p).key ≡ p.key)
    → find_pool j (map change pools) ≡ Option.map change (find_pool j pools)
unfolding find_pool
find_pool-map j change [] h = refl
find_pool-map j change (p ∷ pools) h = ground (arith, h p, find_pool-map j change pools h)

-- The connections that the pool of a key has.
abbrev pub connections_of : Text → Stream → List ℕ
connections_of key s = elim (find_pool key s.pools) [ none ↦ [] | some p ↦ p.connections ]

abbrev pub has_pool : Text → Stream → Bool
has_pool key s = elim (find_pool key s.pools) [ none ↦ false | some _ ↦ true ]

pub open-connections :
    (key j : Text) (client : ℕ) (s : Stream)
    → connections_of j (open_connection key client s)
      ≡ (if text_eq key j then connections_of j s ++ client ∷ [] else connections_of j s)
unfolding open_connection
open-connections key j client s = ground (
  arith,
  text_eq_iff key j,
  find_pool-append j s.pools (record { key = key; cache = no_cache; connections = client ∷ [] }),
  find_pool-at_pool key j (λ p. record p { connections = p.connections ++ client ∷ [] }) s.pools
      (λ p. refl),
)

pub open-has_pool :
    (key j : Text) (client : ℕ) (s : Stream)
    → has_pool j (open_connection key client s) ≡ (text_eq key j || has_pool j s)
unfolding open_connection
open-has_pool key j client s = ground (
  arith,
  text_eq_iff key j,
  find_pool-append j s.pools (record { key = key; cache = no_cache; connections = client ∷ [] }),
  find_pool-at_pool key j (λ p. record p { connections = p.connections ++ client ∷ [] }) s.pools
      (λ p. refl),
)
