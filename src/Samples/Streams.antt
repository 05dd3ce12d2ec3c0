-- ===== src/Samples/Streams.antt =====
-- The theorems on stream/stream.go and on updates at concrete streams.
use ooo.Base.{
  ℕ, Bool, true, false, not, List, [], ◌∷◌, Option, none, some, Text, codes, ◌≡◌, refl, ◌==◌, arith,
  length, All, ◌≤◌, ℤ, pos, inl, inr, subst,
}
use ooo.Stream.{Stream, Pool, no_cache, broadcast}
use ooo.Stream.Pools.{connections_of}
use ooo.Stream.Bounds.{Fits, broadcast-Fits}
use ooo.Stream.Broadcast.{visited, broadcast_lem}
use ooo.Stream.Subscribers.{Call, run, subscribers, new_stream, run_lem}
use ooo.Sync.{follow, follow_lem}
use ooo.Samples.Wire.{toy_differ, toy_wire, is_document, toy_wire-IsWire}

-- A read that finds the same document everywhere, but is refused at one key.
abbrev pub reads : Text → Option Text
reads [] = none
reads (c ∷ key) = some (codes "[1,2]")

abbrev pub clock_at : Text → ℤ
clock_at key = pos 40

abbrev pub reachable : ℕ → Bool
reachable c = not (c == 3)

abbrev pub game_pool : Pool
game_pool = record {
  key = codes "game/*";
  cache = record { version = pos 7; body = codes "[1]" };
  connections = 2 ∷ 3 ∷ 4 ∷ [];
}

abbrev pub clock_pool : Pool
clock_pool = record { key = []; cache = no_cache; connections = 1 ∷ [] }

abbrev pub two_pools : Stream
two_pools = record {
  force_patch = true;
  no_patch = false;
  pools = clock_pool ∷ game_pool ∷ [];
  written = [];
  closed = [];
}

abbrev session : List Call
session =
    Call.enter [] 1
    ∷ Call.enter (codes "game/*") 2
    ∷ Call.refresh (codes "game/*") (some (codes "[]")) (pos 5)
    ∷ Call.enter (codes "game/*") 3
    ∷ Call.broadcast reachable reads clock_at (codes "game/1")
    ∷ Call.broadcast_clock reachable (codes "6")
    ∷ Call.leave (codes "game/*") 2
    ∷ []

run_lem_example :
    (s' : Stream) × (run toy_differ session (new_stream false false) ≡ some s')
    × ((j : Text) → connections_of j s' ≡ subscribers j session [])
run_lem_example = run_lem toy_differ session false false (inr (inr (inl refl)), (inl refl, tt))

broadcast_lem_example :
    broadcast toy_differ reachable reads clock_at (codes "game/1") two_pools
    ≡ visited toy_differ reachable reads clock_at
        (codes "game/1")
        (clock_pool ∷ [])
        (game_pool ∷ [])
        two_pools
broadcast_lem_example =
    broadcast_lem toy_differ reachable reads clock_at (codes "game/1") clock_pool (game_pool ∷ [])
      two_pools refl

pub reads-document : (key body : Text) → reads key ≡ some body → is_document body ≡ true
reads-document [] body h = ground arith
reads-document (c ∷ key) body h = ground arith

abbrev pub rounds : List ((Text → Option Text) × (Text → ℤ) × Text)
rounds =
    (reads, clock_at, codes "game/1")
    ∷ (reads, clock_at, codes "other")
    ∷ (reads, clock_at, codes "*/2")
    ∷ []

follow_lem_example :
    (follow toy_differ toy_wire
      (λ s. s)
      is_document
      toy_wire-IsWire
      true
      false
      rounds
      game_pool
      (codes "[1]")).1
    ≡ (follow toy_differ toy_wire
        (λ s. s)
        is_document
        toy_wire-IsWire
        true
        false
        rounds
        game_pool
        (codes "[1]")).0.cache.body
follow_lem_example =
    follow_lem toy_differ toy_wire (λ s. s) is_document toy_wire-IsWire true false rounds game_pool
      (codes "[1]") (reads-document, (reads-document, (reads-document, tt))) refl

abbrev calm_pools : Stream
calm_pools = record two_pools { force_patch = false }

reads_small : (key body : Text) → reads key ≡ some body → length body ≤ 9
reads_small [] body h = absurd (ground arith)
reads_small (c ∷ key) body h =
    let same : codes "[1,2]" ≡ body = ground arith in subst (λ b. length b ≤ 9) same (omega arith)

broadcast-Fits_example :
    All (Fits 9) (broadcast toy_differ reachable reads clock_at (codes "game/1") calm_pools).written
broadcast-Fits_example =
    broadcast-Fits toy_differ reachable reads clock_at (codes "game/1") 9 calm_pools refl
      reads_small tt
