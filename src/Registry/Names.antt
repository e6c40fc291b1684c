-- ===== src/Registry/Names.antt =====
-- crates/wm-host/src/registry.rs: a group by its name, and a name that is not taken. The random
-- draws are arguments: the k-th call of `naming::generate` uses the indices `draws k`.
pub mod Free
use wiremirage.Prelude.Text.{Str, codes}
use wiremirage.Prelude.Utf8.{is_utf8}
use wiremirage.Prelude.Assoc.{lookup}
use wiremirage.Prelude.Decimal.{print, max_u32}
use wiremirage.Prelude.{
  ℕ, zero, suc, ◌+◌, ◌%◌, Bool, ◌&&◌, not, Option, none, some, ◌∷◌, ◌++◌, is_some, is_empty, length,
  if◌then◌else◌, Result, ok, err,
}
use wiremirage.Naming.{generate}
use wiremirage.Store.{MemStore}
use wiremirage.Registry.{Group, RegistryError, not_found, malformed, out_of_fuel, Codec}
use wiremirage.Registry.Action.{
  registry_error, Action, ◌>>=◌, fail, return, checked, require_some, get, hash_get_all,
}
use wiremirage.Prelude.Utf8.{from_utf8}
use wiremirage.Registry.Stored.{group_key, by_name_key, read_group}

abbrev pub Draws : Type 0
Draws = ℕ → ℕ × ℕ

unfoldable pub drawn : Draws → ℕ → Str
drawn draws k = let (i, j) = draws k in generate i j

-- no entry under the name
unfoldable pub is_free : Str → Action Bool
is_free name = do entry ← get (by_name_key name); return (not (is_some entry))

-- The candidates of the first loop; `none` if each is taken.
unfoldable pub first_free : ℕ → Draws → ℕ → Action (Option Str)
first_free zero draws k = return none
first_free (suc rounds) draws k = do
  free ← is_free (drawn draws k)
  if free then return (some (drawn draws k)) else first_free rounds draws (k + 1)

unfoldable pub numbered : Str → ℕ → Str
numbered base n = base ++ (b'-' ∷ print n)

-- The second loop, with `n: u32`.
unfoldable pub numbered_free : ℕ → Str → ℕ → Action Str
numbered_free zero base n = fail out_of_fuel
numbered_free (suc fuel) base n = do
  free ← is_free (numbered base n)
  if free then return (numbered base n) else numbered_free fuel base ((n + 1) % (max_u32 + 1))

-- The fuel: one round more than the store has entries.
unfoldable pub generate_group_name : Draws → Action Str
generate_group_name draws store =
    (do
      found ← first_free 8 draws 0
      elim found [
        | some name ↦ return name
        | none ↦ numbered_free (suc (length store)) (drawn draws 8) 2
      ])
      store

-- the id that the entry of a name holds
unfoldable pub named_id : Option Str → Action (Option Str)
named_id none = return none
named_id (some bytes) = do
  id ← checked (from_utf8 bytes (malformed (codes "group:by-name value")))
  return (some id)

unfoldable pub by_name : Str → Action (Option Str)
by_name reference = do entry ← get (by_name_key reference); named_id entry

module _ (codec : Codec) where
  unfoldable pub resolve_group : Str → Action (Option Str)
  resolve_group reference =
      if codec.is_ulid reference && not (is_empty reference)
      then (do
        fields ← hash_get_all (group_key reference)
        if is_some (lookup (codes "id") fields) then return (some reference) else by_name reference)
      else by_name reference

  -- `resolve_group(...)?.ok_or(NotFound)?`
  unfoldable pub resolved : Str → Action Str
  resolved reference = do found ← resolve_group reference; require_some not_found found

  unfoldable pub read_group_by_ref : Str → Action Group
  read_group_by_ref reference = do id ← resolved reference; read_group codec id
