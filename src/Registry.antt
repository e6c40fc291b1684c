-- ===== src/Registry.antt =====
-- crates/wm-host/src/registry.rs: the records of the registry, its errors, and the checks of its
-- inputs. Timestamps are numbers of seconds; `compiled_wasm` is a sequence of bytes. The children have
-- the operations over the store, of which the registry has the bucket without a prefix.
pub mod Action
pub mod Records
pub mod Laws
pub mod Stored
pub mod Names
pub mod Groups
pub mod Routes
pub mod Deletion
pub mod Run
pub mod Sample
mod Tests
use wiremirage.Prelude.Text.{Str, codes, str_eq}
use wiremirage.Prelude.Ascii.{is_upper, is_digit}
use wiremirage.Prelude.Decimal.{print}
use wiremirage.Prelude.{
  ℕ, ◌*◌, Bool, true, ◌&&◌, ◌||◌, not, Option, List, [], ◌∷◌, ◌++◌, ◌==◌, ltb, all, is_empty,
  if◌then◌else◌, Result, ok, err,
}
use wiremirage.Pattern.{Methods, any_method, PatternError}
use wiremirage.Store.{StoreError}

pub record Route : Type 0 where
  pub id : Str
  pub group_id : Str
  pub group_name : Str
  pub number : ℕ
  pub methods : Methods
  pub path : Str
  pub language : Str
  pub bindings_version : Str
  pub compiled_wasm : Str
  pub source : Option Str
  pub created_at : ℕ
  pub owner_id : Str
  pub hits_total : ℕ
  pub last_hit_at : Option ℕ

pub record Group : Type 0 where
  pub id : Str
  pub name : Str
  pub implicit : Bool
  pub created_at : ℕ
  pub owner_id : Str
  pub ttl_seconds : ℕ
  pub sliding_ttl : Bool
  pub callout_enabled : Bool
  pub last_activity_at : Option ℕ

-- An error keeps the part of its text that tells it from the others: the field of a malformed
-- record, the name or the slug of a conflict. `out_of_fuel` is no error of the code: it is a loop
-- of the model that was given too few rounds.
pub data RegistryError : Type 0 where
  storage : StoreError → RegistryError
  not_found : RegistryError
  conflict : Str → RegistryError
  malformed : Str → RegistryError
  invalid_path : PatternError → RegistryError
  invalid_method : Str → RegistryError
  invalid_name : Str → RegistryError
  invalid_ttl : RegistryError
  out_of_fuel : RegistryError

abbrev pub default_group_ttl_seconds : ℕ
default_group_ttl_seconds = 24 * 60 * 60

abbrev pub max_group_ttl_seconds : ℕ
max_group_ttl_seconds = 30 * 24 * 60 * 60

abbrev pub default_group_sliding_ttl : Bool
default_group_sliding_ttl = true

pub record NewGroup : Type 0 where
  pub name : Str
  pub owner_id : Str
  pub ttl_seconds : Option ℕ
  pub sliding_ttl : Option Bool

pub record NewRoute : Type 0 where
  pub group : Option Str
  pub methods : Methods
  pub path : Str
  pub language : Str
  pub bindings_version : Str
  pub compiled_wasm : Str
  pub source : Option Str
  pub owner_id : Str

pub record PatchRoute : Type 0 where
  pub methods : Option Methods
  pub path : Option Str
  pub language : Option Str
  pub bindings_version : Option Str
  pub compiled_wasm : Option Str
  pub source : Option (Option Str)

unfoldable pub render_slug : Str → ℕ → Str
render_slug group_name number = group_name ++ (b'/' ∷ print number)

-- A method as a route may be stored with: `ANY`, or upper-case letters, digits and hyphens.
pub valid_method : Str → Bool
valid_method m =
    not (is_empty m) && (str_eq m any_method || all (λ c. is_upper c || is_digit c || c == b'-') m)

unfoldable pub check_methods : Methods → Result RegistryError (Unit {0})
check_methods [] = ok tt
check_methods (m ∷ methods) =
    let rest = check_methods methods in if valid_method m then rest else err (invalid_method m)

unfoldable pub validate_methods : Methods → Result RegistryError Methods
validate_methods [] = err (invalid_method (codes "(empty)"))
validate_methods (m ∷ methods) = elim (check_methods (m ∷ methods)) [
  | ok done ↦ ok (m ∷ methods)
  | err e ↦ err e
]

unfoldable pub normalize_ttl : ℕ → Result RegistryError ℕ
normalize_ttl ttl_seconds =
    if ltb max_group_ttl_seconds ttl_seconds then err invalid_ttl else ok ttl_seconds

-- What the records need of the crates ulid, chrono and serde_json.
pub record Codec : Type 0 where
  pub is_ulid : Str → Bool
  pub to_rfc3339 : ℕ → Str
  pub parse_from_rfc3339 : Str → Option ℕ
  pub to_vec : Methods → Option Str
  pub from_slice : Str → Option Methods
