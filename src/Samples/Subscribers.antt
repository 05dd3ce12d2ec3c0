-- ===== src/Samples/Subscribers.antt =====
-- A subscribed client at a concrete server, from a write to its cache.
use ooo.Base.{
  Text, ℕ, zero, suc, [], ◌∷◌, codes, some, ◌≡◌, refl, arith, subst, ap, is_empty, count, ◌==◌,
  Bool-cases, inl, inr, if◌then◌else◌, pos,
}
use ooo.Filters.{check, first_match}
use ooo.Key.{match, peer, contains, is_valid, glob_regex, is_word, ends_in_word, last_index}
use ooo.Key.Path.{path_match}
use ooo.Meta.{sort, sort_onto, insert}
use ooo.Memory.State.{notify}
use ooo.Memory.Reads.{get, get_ordered, objects_if}
use ooo.Memory.Table.{store, load}
use ooo.Memory.Writes
use ooo.Memory.Run.{step}
use ooo.Stream.{Pool, send_all, set_pool_cache}
use ooo.Server.{filtered_read, get_filtered_data}
use ooo.Server.Workers.{pool_at, set_pool_at, turn, advance, visit, received, update_pool}
use ooo.Server.Workers.Heard.{heard_all, IsJoined}
use ooo.Server.Workers.Documents.{AlwaysDocuments}
use ooo.Server.Workers.Unfiltered.{IsClean, unfiltered-AlwaysDocuments}
use ooo.Server.Workers.Subscribed.{Reach-shown}
use ooo.Samples.{toy_codec, toy_merge}
use ooo.Samples.Wire.{toy_differ, toy_wire, is_document, toy_wire-IsWire}
use ooo.Samples.Streams.{reachable, clock_pool}
use ooo.Samples.Caches.{coherent_server, coherent_pool}
use ooo.Samples.Workers.{
  coherent_server-IsCurrent, taken, taken-Reach, after_turns, after_turns-Reach, runs,
}

only :
    (i : ℕ) (p : Pool)
    → pool_at i coherent_server.stream.pools ≡ some p
    → count 2 p.connections ≡ (if i == 1 then 1 else 0)
unfolding pool_at
only zero p e =
    let same : clock_pool ≡ p = ground arith in subst (λ q. count 2 q.connections ≡ 0) same refl
only (suc zero) p e =
    let same : coherent_pool ≡ p = ground arith in subst (λ q. count 2 q.connections ≡ 1) same refl
only (suc (suc i)) p e = absurd (ground arith)

follows :
    (p : Pool)
    → pool_at 1 coherent_server.stream.pools ≡ some p
    → heard_all toy_wire 2 (2 ∷ []) coherent_server.stream.written ≡ p.cache.body
unfolding pool_at heard_all
follows p e = let same : coherent_pool ≡ p = ground arith in ap (λ q. q.cache.body) same

coherent_server-IsJoined :
    IsJoined toy_differ toy_wire
      (λ s. s)
      is_document
      toy_wire-IsWire
      reachable
      2
      (2 ∷ [])
      1
      coherent_server.stream
unfolding pool_at
coherent_server-IsJoined = record { only = only; follows = follows }

clean : (s : Text) → IsClean toy_codec is_document s
clean s = elim (Bool-cases (is_empty s)) [ inl e ↦ inl e | inr e ↦ inr (ground arith) ]

pub coherent_server-AlwaysDocuments :
    AlwaysDocuments toy_codec toy_merge toy_differ toy_wire
      (λ s. s)
      is_document
      toy_wire-IsWire
      reachable
      coherent_server
coherent_server-AlwaysDocuments =
    unfiltered-AlwaysDocuments toy_codec is_document toy_merge
      (λ o. clean (toy_codec.encode_object o)) toy_differ toy_wire (λ s. s) toy_wire-IsWire
      reachable (λ l b e. clean b) coherent_server refl refl (λ key value e. clean value)

-- The pool of the client after the write of `game/17` was handled.
abbrev shown_pool : Pool
shown_pool = record coherent_pool { cache = record { version = pos 40; body = 3 ∷ [] } }

shown :
    (pool_at 1 (after_turns 4 taken).app.stream.pools ≡ some shown_pool)
    × (filtered_read toy_codec (after_turns 4 taken).app (codes "game/*") ≡ some (3 ∷ []))
unfolding turn advance visit pool_at received peer match path_match get_filtered_data check
    first_match get get_ordered objects_if sort sort_onto insert update_pool send_all step
    Writes.set is_valid glob_regex is_word ends_in_word notify contains set_pool_at set_pool_cache
    load store Writes.entry last_index
shown = (refl, refl)

Reach-shown_example :
    heard_all toy_wire 2 (2 ∷ []) (after_turns 4 taken).app.stream.written ≡ 3 ∷ []
Reach-shown_example =
    Reach-shown toy_codec toy_merge toy_differ toy_wire (λ s. s) is_document toy_wire-IsWire
      reachable 2 (2 ∷ []) 1 coherent_server (after_turns 4 taken) shown_pool (3 ∷ []) refl
      coherent_server-IsJoined coherent_server-AlwaysDocuments
      (record { active = refl; watcher = refl; unchanged = refl }) coherent_server-IsCurrent
      (after_turns-Reach 4 taken taken-Reach) runs.0 runs.1 (omega arith) shown.0 shown.1
