-- ===== src/Registry/Sample.antt =====
-- A small store with one group and one route, and a codec of plain functions.
use wiremirage.Prelude.Text.{Str, codes}
use wiremirage.Prelude.Decimal.{print, parse_unsigned, max_u64}
use wiremirage.Prelude.Decimal.RoundTrip.{parse_unsigned-print}
use wiremirage.Prelude.{
  ℕ, suc, ◌-◌, false, true, none, some, [], ◌∷◌, ◌++◌, map, ◌==◌, length, if◌then◌else◌, ◌≡◌, refl,
  ap, ◌∙◌, arith, append_assoc, append-nil, sym,
}
use wiremirage.Pattern.{Methods}
use wiremirage.Store.{MemStore}
use wiremirage.Registry.{Codec, Group, Route, NewGroup, NewRoute}
use wiremirage.Registry.Run.{everything}
use wiremirage.Registry.Groups.{create_group}
use wiremirage.Registry.Routes.{create_route}
use wiremirage.Registry.Stored.Groups.{print-IsText}
use wiremirage.Registry.Laws.{IsCodec, IsNewGroup, IsNewRoute}
use wiremirage.Registry.Routes.{new_route}
use wiremirage.Registry.Routes.Written.{IsReady}
use wiremirage.Prelude.Utf8.{following, utf8_from, is_utf8}

-- Every text with its bytes raised by one, and a zero behind it.
abbrev pub to_vec : Methods → Str
to_vec [] = []
to_vec (m ∷ methods) = map suc m ++ (0 ∷ to_vec methods)

abbrev pub from_slice : Str → Str → Methods
from_slice seen [] = []
from_slice seen (c ∷ s) =
    if c == 0 then seen ∷ from_slice [] s else from_slice (seen ++ ((c - 1) ∷ [])) s

abbrev pub plain : Codec
plain = record {
  is_ulid = λ s. length s == 26;
  to_rfc3339 = print;
  parse_from_rfc3339 = parse_unsigned max_u64;
  to_vec = λ methods. some (to_vec methods);
  from_slice = λ s. some (from_slice [] s);
}

abbrev pub alice : Str
alice = codes "alice"

abbrev pub group_id : Str
group_id = codes "01BX5ZZKBKACTAV9WEVGEMMVRZ"

abbrev pub route_id : Str
route_id = codes "01BX5ZZKBKACTAV9WEVGEMMVS0"

abbrev pub demo : NewGroup
demo = record { name = codes "demo"; owner_id = alice; ttl_seconds = none; sliding_ttl = none }

abbrev pub hello : NewRoute
hello = record {
  group = some (codes "demo");
  methods = codes "GET" ∷ [];
  path = codes "/hello/{name}";
  language = codes "javascript";
  bindings_version = codes "1";
  compiled_wasm = [];
  source = some (codes "x");
  owner_id = alice;
}

abbrev pub draws : ℕ → ℕ × ℕ
draws k = (k, k)

abbrev pub with_group : MemStore
with_group = (create_group plain draws group_id 100 demo []).1

abbrev pub with_route : MemStore
with_route = (create_route plain draws group_id route_id 200 hello with_group).1

up_down : (c : ℕ) → suc c - 1 ≡ c
up_down c = omega arith

above_zero : (c : ℕ) → (suc c == 0) ≡ false
above_zero c = ground arith

read_slice :
    (seen m : Str) (rest : Str)
    → from_slice seen (map suc m ++ (0 ∷ rest)) ≡ (seen ++ m) ∷ from_slice [] rest
read_slice seen [] rest = ap (λ s. s ∷ from_slice [] rest) (sym (append-nil seen))
read_slice seen (c ∷ m) rest =
    rw (up_down c, above_zero c)
      (read_slice (seen ++ (c ∷ [])) m rest
        ∙ ap (λ s. s ∷ from_slice [] rest) (append_assoc seen (c ∷ []) m))

read_methods : (methods : Methods) → from_slice [] (to_vec methods) ≡ methods
read_methods [] = refl
read_methods (m ∷ methods) =
    read_slice [] m (to_vec methods) ∙ ap (λ rest. m ∷ rest) (read_methods methods)

pub plain-IsCodec : IsCodec plain
plain-IsCodec = record {
  time_parsed = λ t early. parse_unsigned-print max_u64 t (omega arith);
  time_text = print-IsText;
  methods_read = λ methods. (to_vec methods, refl, ap some (read_methods methods));
}

abbrev pub team_id : Str
team_id = codes "01BX5ZZKBKACTAV9WEVGEMMVT1"

abbrev pub team : Group
team = record {
  id = team_id;
  name = codes "team";
  implicit = false;
  created_at = 150;
  owner_id = alice;
  ttl_seconds = 86400;
  sliding_ttl = true;
  callout_enabled = false;
  last_activity_at = none;
}

pub team-IsNewGroup : IsNewGroup team
unfolding is_utf8 utf8_from following
team-IsNewGroup = record {
  id_text = refl;
  name_text = refl;
  owner_text = refl;
  created = omega arith;
  ttl_fits = omega arith;
  unused = refl;
}

abbrev pub second_id : Str
second_id = codes "01BX5ZZKBKACTAV9WEVGEMMVU2"

-- A second route of the group.
abbrev pub bye : NewRoute
bye = record hello { path = codes "/bye/"; source = none }

abbrev pub demo_group : Group
demo_group = record team { id = group_id; name = codes "demo"; created_at = 100 }

abbrev pub second : Route
second = new_route second_id 300 bye demo_group (codes "/bye") 2

abbrev pub with_second : MemStore
with_second = (create_route plain draws team_id second_id 300 bye with_route).1

pub second-IsNewRoute : IsNewRoute second
unfolding is_utf8 utf8_from following new_route
second-IsNewRoute = record {
  id_text = refl;
  group_id_text = refl;
  group_name_text = refl;
  number_fits = omega arith;
  path_text = refl;
  language_text = refl;
  bindings_text = refl;
  source_text = tt;
  created = omega arith;
  owner_text = refl;
  no_hits = refl;
  unused = refl;
}

pub second-IsReady : IsReady second with_route
unfolding everything
second-IsReady = record {
  siblings = route_id ∷ [];
  every = route_id ∷ [];
  owned = route_id ∷ [];
  fresh = refl;
  siblings_set = refl;
  all_set = refl;
  owned_set = refl;
}
