-- ===== src/Store.antt =====
-- crates/wm-host/src/store/: the key-value store that everything else is kept in. The Valkey arms of
-- its operations call a server and are not modelled; the mutex makes each operation one step.
pub mod Memory
pub mod Counters
pub mod Bucket
pub mod Action
pub mod Runs
pub mod Keeps
pub mod Reads
pub mod Orders
mod Tests
use wiremirage.Prelude.Text.{Str}
use wiremirage.Prelude.Assoc.{Assoc}
use wiremirage.Prelude.{List}

pub data StoreError : Type 0 where
  wrong_type : (key actual expected : Str) → StoreError
  not_integer : (key : Str) → StoreError
  incr_overflow : (key : Str) → StoreError
  backend : Str → StoreError

pub data MemValue : Type 0 where
  bytes : Str → MemValue
  list : List Str → MemValue
  hash : Assoc Str → MemValue
  member_set : List Str → MemValue

abbrev pub MemStore : Type 0
MemStore = Assoc MemValue
