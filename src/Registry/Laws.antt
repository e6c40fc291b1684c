-- ===== src/Registry/Laws.antt =====
-- What the registry relies on of the crates chrono and serde_json, and of the values that a program
-- of Rust can hold: a `String` is UTF-8, and an integer fits its type.
use wiremirage.Prelude.Text.{Str}
use wiremirage.Prelude.Utf8.{is_utf8}
use wiremirage.Prelude.Decimal.{max_u32, max_u64}
use wiremirage.Prelude.{ℕ, ◌<◌, ◌≤◌, true, Option, none, some, ◌≡◌}
use wiremirage.Pattern.{Methods}
use wiremirage.Registry.{Codec, Group, Route}

-- The first second of the year 10000, which RFC 3339 has no form for.
abbrev pub year_10000 : ℕ
year_10000 = 253402300800

-- `to_rfc3339` gives a text that parses to the time, and serde_json reads what it wrote.
pub record IsCodec (codec : Codec) : Type 0 where
  pub time_parsed :
      (t : ℕ) → t < year_10000 → codec.parse_from_rfc3339 (codec.to_rfc3339 t) ≡ some t
  pub time_text : (t : ℕ) → is_utf8 (codec.to_rfc3339 t) ≡ true
  pub methods_read :
      (methods : Methods)
      → (json : Str) × (codec.to_vec methods ≡ some json) × (codec.from_slice json ≡ some methods)

abbrev pub IsText : Str → Type 0
IsText s = is_utf8 s ≡ true

abbrev pub IsOptionalText : Option Str → Type 0
IsOptionalText none = Unit {0}
IsOptionalText (some s) = IsText s

-- A group without traffic so far.
pub record IsNewGroup (group : Group) : Type 0 where
  pub id_text : IsText group.id
  pub name_text : IsText group.name
  pub owner_text : IsText group.owner_id
  pub created : group.created_at < year_10000
  pub ttl_fits : group.ttl_seconds ≤ max_u64
  pub unused : group.last_activity_at ≡ none

-- A route without traffic so far.
pub record IsNewRoute (route : Route) : Type 0 where
  pub id_text : IsText route.id
  pub group_id_text : IsText route.group_id
  pub group_name_text : IsText route.group_name
  pub number_fits : route.number ≤ max_u32
  pub path_text : IsText route.path
  pub language_text : IsText route.language
  pub bindings_text : IsText route.bindings_version
  pub source_text : IsOptionalText route.source
  pub created : route.created_at < year_10000
  pub owner_text : IsText route.owner_id
  pub no_hits : route.hits_total ≡ 0
  pub unused : route.last_hit_at ≡ none
