-- ===== src/Samples/Caches.antt =====
-- A write and its event at a concrete server.
use ooo.Base.{[], ◌∷◌, List, codes, ◌≡◌, refl, All, pos}
use ooo.Filters.{check, first_match}
use ooo.Memory.Reads.{get, get_ordered, objects_if}
use ooo.Key.{match}
use ooo.Key.Path.{path_match}
use ooo.Meta.{sort, sort_onto, insert}
use ooo.Stream.{Pool}
use ooo.Server.{Server, get_filtered_data, watch}
use ooo.Server.Coherence.{IsCoherent, after_set, set-watch}
use ooo.Samples.{toy_codec}
use ooo.Samples.Wire.{toy_differ}
use ooo.Samples.Streams.{two_pools, game_pool, clock_pool, clock_at, reachable}
use ooo.Samples.Requests.{server}

-- The pool of `game/*`, with what the codec makes of the list of the two entries.
abbrev pub coherent_pool : Pool
coherent_pool = record game_pool { cache = record { version = pos 7; body = 2 ∷ [] } }

abbrev pub coherent_server : Server
coherent_server = record server {
  stream = record two_pools { pools = clock_pool ∷ coherent_pool ∷ [] };
}

set-watch_example :
    (pools' : List Pool) × ((watch toy_codec toy_differ reachable clock_at
        (codes "game/17")
        (after_set toy_codec (pos 30) (codes "game/17") (codes "1") coherent_server)).stream.pools
      ≡ clock_pool ∷ pools')
    × All
        (IsCoherent toy_codec (
          watch toy_codec toy_differ reachable clock_at
            (codes "game/17")
            (after_set toy_codec (pos 30) (codes "game/17") (codes "1") coherent_server)))
        pools'
unfolding get_filtered_data check first_match get get_ordered objects_if match path_match sort
    sort_onto insert
set-watch_example =
    set-watch toy_codec (pos 30) (codes "game/17") (codes "1") coherent_server toy_differ reachable
      clock_at clock_pool (coherent_pool ∷ []) refl refl (refl, tt)
