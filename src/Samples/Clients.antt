-- ===== src/Samples/Clients.antt =====
-- The theorems on client/client.go at concrete connections.
use ooo.Base.{true, false, List, [], ◌∷◌, some, Text, codes, ◌≡◌, refl, ◌↔◌}
use ooo.Client.{Client, Attempt, failed_dial, connection, subscribe}
use ooo.Client.Feed.{Served, messages_of, read_loop_lem}
use ooo.Client.Retries.{was_cancelled, subscribe_iff}
use ooo.Samples.{toy_codec}
use ooo.Samples.Wire.{toy_differ, toy_wire, is_document, toy_wire-IsWire}
use ooo.Samples.Streams.{game_pool, rounds, reads-document}

abbrev client : Client Text
client = record { cache = codes "[1]"; retry_count = 3; delivered = []; waits = [] }

abbrev attempts : List Attempt
attempts = failed_dial ∷ connection (codes "x" ∷ []) false ∷ failed_dial ∷ connection [] true ∷ []

read_loop_lem_example :
    Served toy_codec toy_differ toy_wire
      (λ s. s)
      is_document
      toy_wire-IsWire
      (λ s. some s)
      (messages_of toy_differ true false rounds game_pool)
      client
read_loop_lem_example =
    read_loop_lem toy_codec toy_differ toy_wire (λ s. s) is_document toy_wire-IsWire (λ s. some s)
      true false rounds game_pool client (reads-document, (reads-document, (reads-document, tt)))
      (λ body text d e. ([], refl)) refl

subscribe_iff_example :
    ((subscribe toy_codec toy_wire (λ s. some s) true attempts client).0 ≡ true)
    ↔ (was_cancelled attempts ≡ true)
subscribe_iff_example = subscribe_iff toy_codec toy_wire (λ s. some s) true attempts client
