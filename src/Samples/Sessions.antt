-- ===== src/Samples/Sessions.antt =====
-- A client that subscribes at a concrete server, a write that is broadcast to it, and another
-- client that subscribes meanwhile.
use mathlib.Core.Option
use ooo.Base.{
  ℕ, zero, suc, [], ◌∷◌, codes, Text, text_eq, true, false, some, ◌≡◌, refl, sym, pos, arith, subst,
  ap, count, is_empty, ◌<◌,
}
use ooo.Filters.{check, check_static, first_match}
use ooo.Key.{last_index, match, peer, contains, is_valid, glob_regex, is_word, ends_in_word}
use ooo.Key.Hex.{format_int}
use ooo.Key.Path.{path_match}
use ooo.Meta.{sort, sort_onto, insert}
use ooo.Memory.Table.{load, store}
use ooo.Memory.Reads.{get, get_ordered, objects_if}
use ooo.Memory.State.{notify, set as set_event}
use ooo.Memory.Writes
use ooo.Memory.Run.{step as write_step}
use ooo.Messages.{patch_cache, decode_buffer}
use ooo.Stream.{
  Stream, frame, broadcast, broadcast_loop, pool_update, patch_update, Pool, find_pool, at_pool,
  open_connection, subscribe, refresh, get_cache_version, send, send_all, set_pool_cache,
}
use ooo.Server.Rest.{ws}
use ooo.Server.Rest.Feed.{first_version}
use ooo.Server.{fetch, get_filtered_data, filtered_read}
use ooo.Server.Workers.{
  waiting, System, pool_at, set_pool_at, update_pool, visit, advance, received, is_told, put, turn,
  write, receive, work,
}
use ooo.Server.Workers.Heard.{heard_all}
use ooo.Server.Workers.Sessions.{
  IsOutside, enter, step, change, with_stream, Passages, none_yet, then_,
}
use ooo.Server.Workers.Sessions.Entered.{IsNew}
use ooo.Server.Workers.Sessions.Places.{place}
use ooo.Server.Workers.Sessions.Begun.{after_ws, ws-follows}
use ooo.Server.Workers.Sessions.Shown.{ws-shown}
use ooo.Samples.{toy_codec, toy_merge}
use ooo.Samples.Wire.{toy_differ, toy_wire, is_document, toy_wire-IsWire}
use ooo.Samples.Streams.{reachable, clock_at, clock_pool}
use ooo.Samples.Caches.{coherent_server, coherent_pool}
use ooo.Samples.Workers.{starting, new_game, after_turns}
use ooo.Samples.Subscribers.{coherent_server-AlwaysDocuments}

abbrev games : Text
games = codes "game/*"

abbrev joined : System
joined =
    after_ws toy_codec toy_merge toy_differ toy_wire (λ s. s) is_document toy_wire-IsWire reachable
      (λ _. true) 5 [] (pos 9) games [] (2 ∷ []) starting

abbrev wrote : System
wrote = record joined {
  app = record joined.app { storage = write_step toy_codec toy_merge new_game joined.app.storage };
}

abbrev taken : System
taken = record {
  app = record wrote.app { storage = record wrote.app.storage { watcher = some [] } };
  workers = put 0 (received (codes "game/17")) wrote.workers;
}

abbrev handled : System
handled = after_turns 4 taken

abbrev joined_by_another : System
joined_by_another = with_stream handled (open_connection games 4 handled.app.stream)

after_turns-Passages :
    (n : ℕ) (s t : System)
    → Passages toy_codec toy_merge toy_differ reachable 1 5 s t
    → Passages toy_codec toy_merge toy_differ reachable 1 5 s (after_turns n t)
after_turns-Passages zero s t p = p
after_turns-Passages (suc n) s t p =
    after_turns-Passages n s (turn toy_codec toy_differ reachable 0 (pos 40) t)
      (then_ p (step _ (work 0 (pos 40) (omega arith))))

taken-Passages : Passages toy_codec toy_merge toy_differ reachable 1 5 joined taken
unfolding ws fetch subscribe open_connection refresh get_cache_version find_pool at_pool
    check_static first_match send format_int
taken-Passages =
    then_
      (then_ none_yet
        (step _ (write new_game (unfold is_told contains peer match path_match in refl))))
      (step _ (
        receive 0 [] [] (record { key = codes "game/17"; operation = set_event }) (omega arith) refl
          (unfold write_step Writes.set is_valid glob_regex is_word ends_in_word notify contains
              peer match path_match in
            refl)))

rests : (i : ℕ) → i < 1 → IsOutside (handled.workers i)
unfolding turn advance visit pool_at received peer match path_match get_filtered_data check
    first_match get get_ordered objects_if sort sort_onto insert update_pool send_all write_step
    Writes.set is_valid glob_regex is_word ends_in_word notify contains set_pool_at ws fetch
    subscribe open_connection refresh get_cache_version find_pool at_pool check_static send
    format_int
rests zero lt = tt
rests (suc i) lt = absurd (omega arith)

joined_by_another-Passages :
    Passages toy_codec toy_merge toy_differ reachable 1 5 joined joined_by_another
joined_by_another-Passages =
    then_ (after_turns-Passages 4 joined taken taken-Passages)
      (change _ rests (enter games 4 (omega arith)))

nobody :
    (i : ℕ) (p : Pool) → pool_at i coherent_server.stream.pools ≡ some p → count 5 p.connections ≡ 0
unfolding pool_at
nobody zero p e =
    let same : clock_pool ≡ p = ground arith in subst (λ q. count 5 q.connections ≡ 0) same refl
nobody (suc zero) p e =
    let same : coherent_pool ≡ p = ground arith in subst (λ q. count 5 q.connections ≡ 0) same refl
nobody (suc (suc i)) p e = absurd (ground arith)

coherent_server-IsNew : IsNew 5 coherent_server.stream
coherent_server-IsNew = record { absent = nobody; unwritten = tt }

cached :
    (p : Pool)
    → find_pool games coherent_server.stream.pools ≡ some p
    → is_empty p.cache.body ≡ false
    → p.cache.body ≡ 2 ∷ []
unfolding find_pool
cached p f e = let same : coherent_pool ≡ p = ground arith in ap (λ q. q.cache.body) (sym same)

listed : filtered_read toy_codec coherent_server games ≡ some (2 ∷ [])
unfolding get_filtered_data check first_match get get_ordered objects_if match path_match sort
    sort_onto insert
listed = refl

other_version :
    text_eq [] (
        format_int
          (first_version toy_codec (λ _. true) reachable 5 [] (pos 9) games coherent_server))
      ≡ true
    → ◌≡◌ {A = Text} [] (2 ∷ [])
unfolding get_cache_version find_pool format_int
other_version e = absurd (cc)

ws-follows_example :
    (p : Pool) × (pool_at
        (place games coherent_server.stream.pools)
        joined_by_another.app.stream.pools
      ≡ some p)
    × (p.key ≡ games)
    × (heard_all toy_wire 5 [] joined_by_another.app.stream.written ≡ p.cache.body)
ws-follows_example =
    ws-follows toy_codec toy_merge toy_differ toy_wire (λ s. s) is_document toy_wire-IsWire
      reachable (λ _. true) 5 [] (pos 9) games [] (2 ∷ []) starting refl refl
      (unfold check_static first_match in refl) listed coherent_server-IsNew
      (record { held = λ i. tt; read = coherent_server-AlwaysDocuments }) other_version 1
      joined_by_another clock_pool (coherent_pool ∷ []) refl refl cached joined_by_another-Passages

-- At rest after the other client has come.
at_rest :
    (joined_by_another.app.storage.watcher ≡ some [])
    × (joined_by_another.workers 0 ≡ waiting)
    × (filtered_read toy_codec joined_by_another.app games ≡ some (3 ∷ []))
unfolding turn advance visit pool_at received peer match path_match get_filtered_data check
    first_match get get_ordered objects_if sort sort_onto insert update_pool send_all write_step
    Writes.set is_valid glob_regex is_word ends_in_word notify contains set_pool_at ws fetch
    subscribe open_connection refresh get_cache_version find_pool at_pool check_static send
    format_int load store Writes.entry last_index
at_rest = (refl, refl, refl)

ws-shown_example : heard_all toy_wire 5 [] joined_by_another.app.stream.written ≡ 3 ∷ []
ws-shown_example =
    ws-shown toy_codec toy_merge toy_differ toy_wire (λ s. s) is_document toy_wire-IsWire reachable
      (λ _. true) 5 [] (pos 9) games [] (2 ∷ []) starting refl refl
      (unfold check_static first_match in refl) listed coherent_server-IsNew
      (record { held = λ i. tt; read = coherent_server-AlwaysDocuments }) other_version cached
      joined_by_another clock_pool (coherent_pool ∷ []) [] (3 ∷ []) refl refl
      (record { active = refl; watcher = refl; unchanged = refl }) tt joined_by_another-Passages
      at_rest.0 at_rest.1 at_rest.2

-- The first message of a subscription that is written after a broadcast: the client is left with the
-- older document.
abbrev late_first : Stream
late_first = send reachable (frame (2 ∷ []) true (pos 7)) 5 (
    broadcast toy_differ reachable (λ _. some (3 ∷ [])) clock_at (codes "game/17")
      (open_connection games 5 coherent_server.stream))

late_first_stale :
    (heard_all toy_wire 5 [] late_first.written ≡ 2 ∷ [])
    × (Option.map (λ p. p.cache.body) (find_pool games late_first.pools) ≡ some (3 ∷ []))
unfolding send broadcast broadcast_loop pool_update patch_update send_all frame format_int
    open_connection find_pool at_pool set_pool_cache peer match path_match heard_all patch_cache
    decode_buffer
late_first_stale = (refl, refl)
