-- ===== src/Memory.antt =====
-- memory.go: the storage that keeps everything in a map.
pub mod Table
pub mod State
pub mod Writes
pub mod Notify
pub mod Effects
pub mod Patches
pub mod Run
pub mod Entries
pub mod Abstract
pub mod Sorted
pub mod Listed
pub mod Lists
pub mod Merged
pub mod Contents
pub mod Locks
pub mod Threads
pub mod Invariant
pub mod Reads
pub mod Life
