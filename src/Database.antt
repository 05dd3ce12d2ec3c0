-- ===== src/Database.antt =====
-- storage.go: the interface `Database`, which a storage implements, on a state of any type. A write
-- takes the clock's reading, and a call may return, panic or wait for ever.
pub mod InMemory
pub mod Conformance
use ooo.Base.{Bool, List, Option, Text, ℤ}
use ooo.Meta.{Object}
use ooo.Memory.State.{Call, Error, Reply}

-- `Watch` is left out: it returns the channel, which the calls of the other operations fill.
pub record Database (S : Type 0) : Type 0 where
  pub active : Call S Bool
  pub start : List Text → Call S (Option Error)
  pub close : Call S (Unit {0})
  pub keys : Call S (Reply Text)
  pub keys_range : Text → ℤ → ℤ → Call S (Reply (List Text))
  pub get : Text → Call S (Reply Text)
  pub get_descending : Text → Call S (Reply Text)
  pub get_n : Text → ℤ → Call S (Reply (List Object))
  pub get_n_ascending : Text → ℤ → Call S (Reply (List Object))
  pub get_n_range : Text → ℤ → ℤ → ℤ → Call S (Reply (List Object))
  pub set : ℤ → Text → Text → Call S (Reply Text)
  pub patch : ℤ → Text → Text → Call S (Reply Text)
  pub set_with_meta : Text → Text → ℤ → ℤ → Call S (Reply Text)
  pub get_and_lock : Text → Call S (Reply Text)
  pub set_and_unlock : ℤ → Text → Text → Call S (Reply Text)
  pub unlock : Text → Call S (Option Error)
  pub del : Text → Call S (Option Error)
  pub clear : Call S (Unit {0})
