-- ===== src/Samples/Workers.antt =====
-- The readers of the channel at a concrete server: a write that one reader handles, and two readers
-- of which one comes late.
use ooo.Base.{
  ℕ, zero, suc, [], ◌∷◌, List, codes, Text, text_eq, true, false, some, ◌≡◌, refl, none, some, pos,
  arith, subst, ℤ,
}
use ooo.Filters.{check, first_match}
use ooo.Key.{match, peer, contains, is_valid, glob_regex, is_word, ends_in_word, last_index}
use ooo.Key.Path.{path_match}
use ooo.Meta.{sort, sort_onto, insert}
use ooo.Memory.Reads.{get, get_ordered, objects_if}
use ooo.Memory.State.{notify, set as set_event}
use ooo.Memory.Table.{store, load}
use ooo.Memory.Writes
use ooo.Memory.Run.{Request, step}
use ooo.Memory.Life.{close}
use ooo.Stream.{Pool, send_all, set_pool_cache}
use ooo.Server.{Server, get_filtered_data, watch}
use ooo.Server.Coherence.{IsCoherent}
use ooo.Server.Workers.{
  System, waiting, checking, ended, pool_at, set_pool_at, update_pool, received, visit, advance,
  turn, run_turns, is_told, put, write, receive, work, Reach, start, later,
}
use ooo.Server.Workers.Single.{IsCurrent, Reach-IsCurrent}
use ooo.Server.Workers.Ending.{close_lem}
use ooo.Server.Workers.Alone.{run_alone, alone_lem}
use ooo.Samples.{toy_codec, toy_merge}
use ooo.Samples.Wire.{toy_differ}
use ooo.Samples.Streams.{reachable, clock_at, two_pools, clock_pool}
use ooo.Samples.Requests.{server}
use ooo.Samples.Storage.{two_entries}
use ooo.Samples.Caches.{coherent_server, coherent_pool}

pub coherent_server-IsCurrent : IsCurrent toy_codec coherent_server
unfolding IsCurrent pool_at get_filtered_data check first_match get get_ordered objects_if match
    path_match sort sort_onto insert
coherent_server-IsCurrent zero p le at = absurd (omega arith)
coherent_server-IsCurrent (suc zero) p le at =
    let same : coherent_pool ≡ p = ground arith in
    subst (IsCoherent toy_codec coherent_server) same refl
coherent_server-IsCurrent (suc (suc i)) p le at = absurd (ground arith)

abbrev pub starting : System
starting = record { app = coherent_server; workers = λ _. waiting }

abbrev pub new_game : Request
new_game = Request.set (pos 30) (codes "game/17") (codes "1")

abbrev written : System
written = record starting {
  app = record coherent_server {
    storage = step toy_codec toy_merge new_game coherent_server.storage;
  };
}

abbrev pub taken : System
taken = record {
  app = record written.app { storage = record written.app.storage { watcher = some [] } };
  workers = put 0 (received (codes "game/17")) written.workers;
}

-- The turns of one reader, `n` of them.
abbrev times : ℕ → ℕ → List (ℕ × ℤ)
times i zero = []
times i (suc n) = (i, pos 40) ∷ times i n

abbrev pub after_turns : ℕ → System → System
after_turns zero s = s
after_turns (suc n) s = after_turns n (turn toy_codec toy_differ reachable 0 (pos 40) s)

pub after_turns-Reach :
    (n : ℕ) (s : System)
    → Reach toy_codec toy_merge toy_differ reachable 1 coherent_server s
    → Reach toy_codec toy_merge toy_differ reachable 1 coherent_server (after_turns n s)
after_turns-Reach zero s r = r
after_turns-Reach (suc n) s r =
    after_turns-Reach n (turn toy_codec toy_differ reachable 0 (pos 40) s)
      (later r (work 0 (pos 40) (omega arith)))

pub taken-Reach : Reach toy_codec toy_merge toy_differ reachable 1 coherent_server taken
taken-Reach =
    later (later start (write new_game (unfold is_told contains peer match path_match in refl))) (
      receive 0 [] [] (record { key = codes "game/17"; operation = set_event }) (omega arith) refl
        (unfold step Writes.set is_valid glob_regex is_word ends_in_word notify contains peer match
            path_match in
          refl))

pub runs :
    ((after_turns 4 taken).app.storage.watcher ≡ some [])
    × ((after_turns 4 taken).workers 0 ≡ waiting)
unfolding turn advance visit pool_at received peer match path_match get_filtered_data check
    first_match get get_ordered objects_if sort sort_onto insert update_pool send_all step
    Writes.set is_valid glob_regex is_word ends_in_word notify contains set_pool_at
runs = (refl, refl)

-- A visit, an update, the end of the loop, and the test of the storage.
Reach-IsCurrent_example : IsCurrent toy_codec (after_turns 4 taken).app
Reach-IsCurrent_example =
    Reach-IsCurrent toy_codec toy_merge toy_differ reachable coherent_server (after_turns 4 taken)
      (record { active = refl; watcher = refl; unchanged = refl }) coherent_server-IsCurrent
      (after_turns-Reach 4 taken taken-Reach) runs.0 runs.1

abbrev closed : System
closed = record taken { app = record taken.app { storage = (close taken.app.storage).1 } }

close_lem_example : (run_turns toy_codec toy_differ reachable (times 0 7) closed).workers 0 ≡ ended
close_lem_example =
    close_lem toy_codec toy_differ reachable 0 (times 0 7) taken.app.storage closed
      (unfold close step Writes.set is_valid glob_regex is_word ends_in_word notify contains peer
          match path_match in
        refl)
      refl (omega arith)

-- Two readers of the channel, and two writes of a key with a pool of its own. The first reader has
-- read when the second write comes; it updates the pool after the second reader.
abbrev key_pool : Pool
key_pool = record {
  key = codes "game/15";
  cache = record { version = pos 7; body = (get toy_codec (codes "game/15") two_entries).0 };
  connections = [];
}

abbrev key_server : Server
key_server = record server { stream = record two_pools { pools = clock_pool ∷ key_pool ∷ [] } }

abbrev put_game : ℤ → Text → System → System
put_game now body s = record s {
  app = record s.app {
    storage = step toy_codec toy_merge (Request.set now (codes "game/15") body) s.app.storage;
  };
}

abbrev take_game : ℕ → System → System
take_game i s = record {
  app = record s.app { storage = record s.app.storage { watcher = some [] } };
  workers = put i (received (codes "game/15")) s.workers;
}

abbrev turns_of : ℕ → ℕ → System → System
turns_of i n = run_turns toy_codec toy_differ reachable (times i n)

abbrev first_holds : System
first_holds = turns_of 0 1 (
    take_game 0
      (put_game (pos 30) (codes "2") (record { app = key_server; workers = λ _. waiting })))

abbrev late : System
late = turns_of 0 3 (turns_of 1 4 (take_game 1 (put_game (pos 31) (codes "3") first_holds)))

abbrev cached : System → Text
cached s = elim (pool_at 1 s.app.stream.pools) [ none ↦ [] | some p ↦ p.cache.body ]

late_readers :
    (late.app.storage.watcher ≡ some [])
    × (late.workers 0 ≡ waiting)
    × (late.workers 1 ≡ waiting)
    × (text_eq (cached late) (get toy_codec (codes "game/15") first_holds.app.storage.mem).0 ≡ true)
    × (text_eq (cached late) (get toy_codec (codes "game/15") late.app.storage.mem).0 ≡ false)
unfolding run_turns turn advance visit pool_at received peer match path_match get_filtered_data
    check first_match get get_ordered objects_if sort sort_onto insert update_pool send_all step
    Writes.set is_valid glob_regex is_word ends_in_word notify contains set_pool_at set_pool_cache
    load store Writes.entry last_index
late_readers = (refl, refl, refl, refl, refl)

alone_lem_example :
    (times : List ℤ) × (run_alone toy_codec toy_differ reachable times coherent_server
        (received (codes "game/17"))
      ≡ (watch toy_codec toy_differ reachable clock_at (codes "game/17") coherent_server, checking))
alone_lem_example =
    alone_lem toy_codec toy_differ reachable clock_at (codes "game/17") coherent_server clock_pool
      (coherent_pool ∷ []) refl refl
