-- ===== src/Registry/Action.antt =====
-- crates/wm-host/src/registry.rs: the operations over the registry's bucket.
use wiremirage.Prelude.{Option, none, some, Result, ok, err}
use wiremirage.Store.{MemStore}
use wiremirage.Store.Action.{StorageError}
use wiremirage.Registry.{RegistryError, storage, not_found}
unfoldable pub use wiremirage.Store.Action.{
  after, ◌>>=◌, ◌>>◌, return, fail, checked, require_some, from_store, from_answer, ok_or_none,
  attempt, for_each, collect, collect_ok, get, set, delete, delete_with_prefix, hash_get_all,
  hash_set, hash_delete, hash_incr, set_add, set_remove, set_members,
}

abbrev pub Action : Type 0 → Type 0
Action A = MemStore → Result RegistryError A × MemStore

instance abbrev pub registry_error : StorageError RegistryError
registry_error = record { storage = storage }

-- An answer, where nothing is none, and the other errors stay.
abbrev pub unless_missing : {A : Type 0} → Result RegistryError A → Result RegistryError (Option A)
unless_missing (ok a) = ok (some a)
unless_missing (err not_found) = ok none
unless_missing (err e) = err e

abbrev pub if_found : {A : Type 0} → Action A → Action (Option A)
if_found m store = let (result, rest) = m store in (unless_missing result, rest)
