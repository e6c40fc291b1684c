-- ===== src/Registry/Records.antt =====
-- crates/wm-host/src/registry.rs: the records out of the hashes that the store keeps. The crates that
-- print and parse are the codec.
use wiremirage.Prelude.Text.{Str, codes, str_eq}
use wiremirage.Prelude.Utf8.{is_utf8, from_utf8}
use wiremirage.Prelude.Assoc.{Assoc, lookup}
use wiremirage.Prelude.Decimal.{parse_unsigned, max_u32, max_u64}
use wiremirage.Prelude.{ℕ, Bool, false, Option, none, some, if◌then◌else◌, Result, ok, err, ◌>>=◌}
use wiremirage.Registry.{Route, Group, RegistryError, malformed, Codec}

-- a field that has to be there
unfoldable pub required : Option Str → Str → Result RegistryError Str
required none name = err (malformed name)
required (some bytes) name = ok bytes

unfoldable pub utf8 : Assoc Str → Str → Result RegistryError Str
utf8 fields name = required (lookup name fields) name >>= λ bytes. from_utf8 bytes (malformed name)

unfoldable pub only_utf8 : Option Str → Option Str
only_utf8 none = none
only_utf8 (some bytes) = if is_utf8 bytes then some bytes else none

unfoldable pub utf8_opt : Assoc Str → Str → Option Str
utf8_opt fields name = only_utf8 (lookup name fields)

unfoldable pub parsed {ℓ} : {A : Type ℓ} → Str → Option A → Result RegistryError A
parsed name none = err (malformed name)
parsed name (some a) = ok a

-- an optional field, `map` and `transpose`
unfoldable pub transposed {ℓ} :
    {A : Type ℓ} → (Str → Result RegistryError A) → Option Str → Result RegistryError (Option A)
transposed f none = ok none
transposed f (some s) = f s >>= λ a. ok (some a)

unfoldable pub unwrap_or {ℓ} : {A : Type ℓ} → A → Option A → A
unwrap_or d none = d
unwrap_or d (some a) = a

-- `b"1"` or `b"0"`, and the test for the first
unfoldable pub flag : Bool → Str
flag b = if b then codes "1" else codes "0"

unfoldable pub is_one : Option Str → Bool
is_one none = false
is_one (some s) = str_eq s (codes "1")

module _ (codec : Codec) where
  unfoldable pub parse_ts : Str → Result RegistryError ℕ
  parse_ts s = parsed (codes "created_at") (codec.parse_from_rfc3339 s)

  unfoldable pub decode_group : Assoc Str → Result RegistryError Group
  decode_group fields = do
    id ← utf8 fields (codes "id")
    name ← utf8 fields (codes "name")
    implicit ← utf8 fields (codes "implicit")
    created_text ← utf8 fields (codes "created_at")
    created_at ← parse_ts created_text
    owner_id ← utf8 fields (codes "owner_id")
    ttl_text ← utf8 fields (codes "ttl_seconds")
    ttl_seconds ← parsed (codes "ttl_seconds") (parse_unsigned max_u64 ttl_text)
    sliding ← utf8 fields (codes "sliding_ttl")
    last_activity_at ← transposed parse_ts (utf8_opt fields (codes "last_activity_at"))
    ok (record {
      id = id;
      name = name;
      implicit = is_one (some implicit);
      created_at = created_at;
      owner_id = owner_id;
      ttl_seconds = ttl_seconds;
      sliding_ttl = is_one (some sliding);
      callout_enabled = is_one (utf8_opt fields (codes "callout_enabled"));
      last_activity_at = last_activity_at;
    })

  unfoldable pub parse_hits : Str → Result RegistryError ℕ
  parse_hits s = parsed (codes "hits_total") (parse_unsigned max_u64 s)

  unfoldable pub decode_route : Assoc Str → Result RegistryError Route
  decode_route fields = do
    id ← utf8 fields (codes "id")
    group_id ← utf8 fields (codes "group_id")
    group_name ← utf8 fields (codes "group_name")
    number_text ← utf8 fields (codes "number")
    number ← parsed (codes "number") (parse_unsigned max_u32 number_text)
    json ← required (lookup (codes "methods") fields) (codes "methods")
    methods ← parsed (codes "methods") (codec.from_slice json)
    path ← utf8 fields (codes "path")
    language ← utf8 fields (codes "language")
    bindings_version ← utf8 fields (codes "bindings_version")
    compiled_wasm ← required (lookup (codes "compiled_wasm") fields) (codes "compiled_wasm")
    created_text ← utf8 fields (codes "created_at")
    created_at ← parse_ts created_text
    owner_id ← utf8 fields (codes "owner_id")
    hits_total ← transposed parse_hits (utf8_opt fields (codes "hits_total"))
    last_hit_at ← transposed parse_ts (utf8_opt fields (codes "last_hit_at"))
    ok (record {
      id = id;
      group_id = group_id;
      group_name = group_name;
      number = number;
      methods = methods;
      path = path;
      language = language;
      bindings_version = bindings_version;
      compiled_wasm = compiled_wasm;
      source = utf8_opt fields (codes "source");
      created_at = created_at;
      owner_id = owner_id;
      hits_total = unwrap_or 0 hits_total;
      last_hit_at = last_hit_at;
    })
