-- ===== src/Stream.antt =====
-- stream/stream.go and stream/clock.go: the pools of subscribed connections, their caches, and the
-- messages written to them. The diff of two documents is that of a library (jsonpatch): the
-- parameter `Differ`. `deliver` says whether a connection can be written to.
pub mod Pools
pub mod Broadcast
pub mod Sessions
pub mod Subscribers
pub mod Refresh
pub mod Bounds
use ooo.Base.{
  ℕ, zero, suc, Bool, true, false, not, ◌&&◌, List, [], ◌∷◌, ◌++◌, map, Option, none, some, Text,
  text_eq, codes, is_empty, length, ltb, ◌==◌, if◌then◌else◌, ℤ, pos, select,
}
use ooo.Key.{peer}
use ooo.Key.Hex.{format_int}
use ooo.Meta.{empty_object}

-- `Cache`
pub record Cache : Type 0 where
  pub version : ℤ
  pub body : Text

-- `Pool`; a connection is named by a number.
pub record Pool : Type 0 where
  pub key : Text
  pub cache : Cache
  pub connections : List ℕ

-- `Stream`, with what was written to connections, in order, and the connections that were closed.
pub record Stream : Type 0 where
  pub force_patch : Bool
  pub no_patch : Bool
  pub pools : List Pool
  pub written : List (ℕ × Text)
  pub closed : List ℕ

-- A list of operations, `CreatePatch` of two documents and `Marshal` of operations.
pub record Differ : Type 0 where
  pub create_patch : Text → Text → Option (List Text)
  pub encode_patch : List Text → Option Text

abbrev pub no_cache : Cache
no_cache = record { version = pos 0; body = [] }

-- `findPool`: -1 is `none`.
unfoldable pub find_pool : Text → List Pool → Option Pool
find_pool key [] = none
find_pool key (p ∷ pools) = if text_eq p.key key then some p else find_pool key pools

-- A change of the pool that `findPool` finds.
unfoldable pub at_pool : Text → (Pool → Pool) → List Pool → List Pool
at_pool key change [] = []
at_pool key change (p ∷ pools) =
    if text_eq p.key key then change p ∷ pools else p ∷ at_pool key change pools

unfoldable pub init_clock : Stream → Stream
init_clock s =
    if is_empty s.pools
    then record s { pools = record { key = []; cache = no_cache; connections = [] } ∷ [] }
    else s

-- `new`: the connection joins the pool of its key, made if it is not there.
unfoldable pub open_connection : Text → ℕ → Stream → Stream
open_connection key client s = elim (find_pool key s.pools) [
  | none ↦ record s {
    pools = s.pools ++ record { key = key; cache = no_cache; connections = client ∷ [] } ∷ [];
  }
  | some _ ↦ record s {
    pools = at_pool key (λ p. record p { connections = p.connections ++ client ∷ [] }) s.pools;
  }
]

-- `New`: the upgrade of the request and `OnSubscribe` may refuse the connection.
unfoldable pub subscribe : Bool → (Text → Bool) → Text → ℕ → Stream → Option Stream
unfolding open_connection
subscribe upgraded on_subscribe key client s =
    if not upgraded
    then none
    else if not (on_subscribe key)
    then none
    else some (open_connection key client s)

-- `Close`; without a pool of the key the index -1 is a panic, `none`.
unfoldable pub close : Text → ℕ → Stream → Option Stream
close key client s = elim (find_pool key s.pools) [
  | none ↦ none
  | some _ ↦ some (record s {
    pools =
        at_pool key (λ p. record p { connections = select (λ c. not (c == client)) p.connections })
          s.pools;
    closed = s.closed ++ client ∷ [];
  })
]

-- The bytes that `Write` sends.
unfoldable pub frame : Text → Bool → ℤ → Text
unfolding format_int
frame body snapshot version =
    codes "{\"snapshot\":"
    ++ ((if snapshot then codes "true" else codes "false")
        ++ (codes ",\"version\":\""
            ++ (format_int version ++ (codes "\",\"data\":" ++ (body ++ codes "}")))))

-- `Write` and `WriteClock`: the message is sent, or the connection is closed.
unfoldable pub send : (ℕ → Bool) → Text → ℕ → Stream → Stream
send deliver message client s =
    if deliver client
    then record s { written = s.written ++ (client, message) ∷ [] }
    else record s { closed = s.closed ++ client ∷ [] }

unfoldable pub send_all : (ℕ → Bool) → Text → List ℕ → Stream → Stream
unfolding send
send_all deliver message [] s = s
send_all deliver message (c ∷ clients) s =
    send_all deliver message clients (send deliver message c s)

-- What `Patch` answers: the bytes, whether they are a snapshot, and the version.
pub record Update : Type 0 where
  pub body : Text
  pub snapshot : Bool
  pub version : ℤ

-- `Patch`, on a pool; the clock reads `now` in `_setCache`. The cache takes the data in every case.
unfoldable pub patch_update : Differ → Bool → Bool → Cache → Text → ℤ → Update
patch_update d force_patch no_patch cache body now =
    let whole : Update = record { body = body; snapshot = true; version = now } in
    if no_patch then whole else elim (d.create_patch cache.body body) [
      | none ↦ whole
      | some patch ↦ elim (d.encode_patch patch) [
        | none ↦ whole
        | some operations ↦
            if not force_patch && ltb (length body) (length operations)
            then whole
            else record { body = operations; snapshot = false; version = now }
      ]
    ]

unfoldable pub set_pool_cache : Text → ℤ → Pool → Pool
set_pool_cache body now p = record p { cache = record { version = now; body = body } }

-- The message that a pool's connections get, none if the path does not concern it or the read is
-- filtered, and the pool afterwards.
unfoldable pub pool_update :
    Differ → Bool → Bool → (Text → Option Text) → (Text → ℤ) → Text → Pool → Pool × Option Text
pool_update d force_patch no_patch get now path p =
    if peer p.key path
    then (elim (get p.key) [
      | none ↦ (p, none)
      | some body ↦
          let u = patch_update d force_patch no_patch p.cache body (now p.key) in
          (set_pool_cache body (now p.key) p, some (frame u.body u.snapshot u.version))
    ])
    else (p, none)

abbrev pub send_update : (ℕ → Bool) → List ℕ → Option Text → Stream → Stream
send_update deliver clients none s = s
send_update deliver clients (some message) s = send_all deliver message clients s

-- The loop over the pools behind the clock's, `done` those that were visited.
unfoldable pub broadcast_loop :
    Differ
    → (ℕ → Bool)
    → (Text → Option Text)
    → (Text → ℤ)
    → Text
    → List Pool
    → List Pool
    → Stream
    → Stream
unfolding pool_update send_all
broadcast_loop d deliver get now path done [] s = record s { pools = done }
broadcast_loop d deliver get now path done (p ∷ pools) s =
    let (p', message) = pool_update d s.force_patch s.no_patch get now path p in
    broadcast_loop d deliver get now path (done ++ p' ∷ []) pools
      (send_update deliver p.connections message s)

-- `Broadcast`; `now` is the clock's reading when the pool of a key is visited.
unfoldable pub broadcast :
    Differ → (ℕ → Bool) → (Text → Option Text) → (Text → ℤ) → Text → Stream → Stream
unfolding broadcast_loop
broadcast d deliver get now path s = elim s.pools [
  | [] ↦ s
  | clock ∷ pools ↦ broadcast_loop d deliver get now path (clock ∷ []) pools s
]

-- `BroadcastClock`; without pools the index 0 is a panic, `none`.
unfoldable pub broadcast_clock : (ℕ → Bool) → Text → Stream → Option Stream
unfolding send_all
broadcast_clock deliver time s = elim s.pools [
  | [] ↦ none
  | clock ∷ pools ↦ some (send_all deliver time clock.connections s)
]

unfoldable pub set_cache : Text → Text → ℤ → Stream → Stream
unfolding set_pool_cache
set_cache key body now s = elim (find_pool key s.pools) [
  | none ↦ record s {
    pools =
        s.pools
        ++ record { key = key; cache = record { version = now; body = body }; connections = [] }
          ∷ [];
  }
  | some _ ↦ record s { pools = at_pool key (set_pool_cache body now) s.pools }
]

-- `GetCacheVersion`: `none` is its error.
unfoldable pub get_cache_version : Text → Stream → Option ℤ
get_cache_version key s = elim (find_pool key s.pools) [
  | none ↦ none
  | some p ↦ if is_empty p.cache.body then none else some p.cache.version
]

-- The data of a read, the empty object for no bytes or an error.
abbrev pub raw_data : Option Text → Text
raw_data none = empty_object
raw_data (some bytes) = if is_empty bytes then empty_object else bytes

-- `Refresh`; `get` is the read of the path, `none` an error, which is ignored.
unfoldable pub refresh : Text → Option Text → ℤ → Stream → Cache × Stream
unfolding set_cache get_cache_version
refresh path get now s =
    let raw = raw_data get in
    elim (get_cache_version path s) [
      | none ↦ (record { version = now; body = raw }, set_cache path raw now s)
      | some version ↦ (record { version = version; body = raw }, s)
    ]
