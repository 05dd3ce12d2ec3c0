-- ===== src/Lib.antt =====
-- A verification library of ooo, a state store with HTTP and web socket access.
--
-- The program keeps JSON documents under keys, paths such as `game/1`. A path with a star is a
-- pattern (key/key.go). The storage (memory.go) holds the documents with their times
-- (meta/objects.go) in a map, and sends an event for each change through a channel. A reader of
-- the channel (watch in ooo.go) has the pools of subscribed connections (stream/stream.go) told:
-- each pool whose key matches the event's gets the new document, or the patch against its cache.
-- Clients apply these messages to caches of their own (messages/messages.go). HTTP requests
-- (rest.go) and subscriptions (ws.go, clock.go) go through the filters (filters.go) to the storage
-- and the streams.
--
-- The files:
-- - Base and its children: the shared names, lists, texts and numbers. Base/Decimal has strconv's
--   Itoa. A Go string or byte slice is a list of code points. Numbers are natural ones; an int64,
--   where it may be negative, is an integer.
-- - Key: key/key.go, one function for each. Key/Path writes out Go's filepath.Match, Key/Hex
--   strconv's FormatInt and ParseInt. Key/Glob is a description of matching with no search in it;
--   Key/Search, Key/Cut, Key/Agree and Key/Matching compare the two. Key/Stamp and Key/Built are
--   about the keys that Build makes.
-- - Meta: meta/objects.go. The JSON library is the parameter Codec, with its laws in IsCodec; they
--   are that an object is written and read back, and that compacting keeps JSON.
-- - Memory: memory.go. State has the record of MemoryStorage and the ways a call ends: it returns,
--   it panics, or it waits for ever. Table is sync.Map as a list of pairs; Writes, Reads and Life
--   have the operations, Run their sequences. A lock is a flag of its key. The theorems on them
--   are in Notify, Effects, Patches, Merged, Threads, Entries, Invariant, Locks, Contents,
--   Abstract, Sorted, Listed and Lists; Abstract has a storage that is a function from keys to
--   objects. Table and Meta fix what the source leaves open: the order of Range is that of the
--   list, and the sort is by insertion, so that objects of the same time come in that order, where
--   Go's sort.Slice may put them in any. The channel has no buffer: a send adds its event to those
--   whose senders wait, and a call that returns after it is one whose event some reader takes;
--   where nobody reads, the source waits for ever. The clock's reading is an argument.
--   merge/merge.go is a copy of another project's library: it is the parameter Merge.
-- - Filters: filters.go; what the user's filters do is a field of each. Filters/Order has the
--   theorems.
-- - Stream: stream/stream.go and stream/clock.go. A connection is a number; the argument `deliver`
--   says which can be written to, and the stream records what was written, to whom, and what was
--   closed. The patch library is the parameter Differ. Stream/Pools, Broadcast, Sessions,
--   Subscribers, Refresh and Bounds have the theorems.
-- - Messages: messages/messages.go, over the parameter Wire. Sync compares it with Stream; what
--   the two libraries are relied on for is the record IsWire.
-- - Client: client/client.go, for any type of items; a run over the connections, with what ends
--   each. Client/Feed is about the messages of one, Client/Retries about the loop.
-- - Server: ooo.go and the ticks of clock.go; Server/Span has its life, Server/Defaults the
--   default values of its fields, Server/Coherence compares the streams' caches with the storage.
--   Server/Workers is about the goroutines that run watch, in steps that interleave with each
--   other and with writes; its children have what a write leaves for them (Told), their steps in
--   Broadcast (Places, Visits, Advances, Loop), one of them among writers (Single) or by itself
--   (Alone), their end (Ending), and what a subscribed client makes of their messages (Heard,
--   Documents, with Unfiltered for a server without filters for reads, and Subscribed). Its child
--   Sessions adds the subscriptions that begin and end meanwhile, as steps of the same system:
--   Sessions/Places and Kept have what they leave of a client's pool, Passed follows a run,
--   Entered and Begun start one with a subscription (ws.go), and Cached and Shown compare the
--   client's document with what is read. Server/Rest: rest.go, ws.go and the handler of clock.go;
--   serve_read and serve_stats hand a request for an upgrade on to ws and clock; its children have
--   what the handlers refuse (Guards, Writable, Refused, with Safe), store (Stored, with Bodies),
--   answer to a read after a write (Round), and send first to a subscription (Feed).
-- - Database: the interface of storage.go, as a record of operations. Database/InMemory is
--   memory.go as an instance of it, Database/Conformance and its children Numbered and Listed have
--   the tests of storageTest.go; the other children are about them: Passes, Rounds and Ranges
--   (with Times) about one test each, Decimals, Numbers and Loops about numbered keys, Batches and
--   (with Rising and Counting) Lasts about the tests that use them.
-- - Samples: concrete libraries and inputs, on which the theorems are applied; Samples/Runs runs
--   tests of storageTest.go.
--
-- All loops are structural recursions, but for that of filepath.Match, whose fuel is the length of
-- the pattern, and FormatInt's and Itoa's, whose sixteen and nineteen digits hold every int64;
-- that they are enough is shown where they are compared with their descriptions. Each operation is
-- one step: the mutexes of the source make it so for the streams and the storage's start and end,
-- and of the others Memory/Threads takes the writes apart into single calls of sync.Map. A
-- sequence of steps stands for what goroutines do in some order. Broadcast is no single step,
-- since it holds its lock for reading only: Server/Workers takes it apart. Refresh, which takes
-- its lock twice, and the start of a subscription (ws) are single steps there: what may come
-- between their parts is not modelled.
--
-- Not modelled: the HTTP server, its router and signals (ooo.go), headers and logs, a `Close`
-- while writers still send, merge/merge.go, which is a copy of another project's library, fuzz.go,
-- which cannot get past its first write, and streamTest.go, whose tests are runs on fixed inputs
-- with sockets, goroutines and sleeps.
pub mod Base
pub mod Key
pub mod Meta
pub mod Memory
pub mod Filters
pub mod Stream
pub mod Messages
pub mod Sync
pub mod Client
pub mod Server
pub mod Database
pub mod Samples
