-- ===== src/Registry/Stored/Keys.antt =====
-- crates/wm-host/src/registry.rs: the keys of the registry do not collide, if the ids are ULIDs.
use wiremirage.Prelude.Text.{Str, codes, str_eq, str_eq_ne, prefix_cancel}
use wiremirage.Prelude.Ascii.{is_upper, is_digit}
use wiremirage.Prelude.{ℕ, Bool, true, false, ◌||◌, ◌++◌, all, length, ◌≡◌, refl, ap, ◌∙◌}
use wiremirage.Registry.Stored.{
  group_key, route_key, by_name_key, group_owner_key, in_group_key, by_owner_key, by_number_key,
  all_groups, all_routes,
}

abbrev pub is_crockford : ℕ → Bool
is_crockford c = is_upper c || is_digit c

-- The text of a ULID: 26 letters and digits.
pub record IsUlid (id : Str) : Type 0 where
  pub full : length id ≡ 26
  pub letters : all is_crockford id ≡ true

-- The other keys, without what they share with the key of a record, are not an id.
pub not-ulid :
    (other id : Str) → IsUlid id → all is_crockford other ≡ false → str_eq other id ≡ false
not-ulid other id ulid bad =
    str_eq_ne other id (λ e. cc (ulid.letters, bad, ap (all is_crockford) e))

pub all-id : (id : Str) → IsUlid id → str_eq (codes "all") id ≡ false
all-id id ulid = not-ulid (codes "all") id ulid refl

module _ (id other : Str) (ulid : IsUlid id) where
  pub by_name-group : str_eq (by_name_key other) (group_key id) ≡ false
  unfolding by_name_key group_key str_eq
  by_name-group = not-ulid (codes "by-name:" ++ other) id ulid refl

  pub group_owner-group : str_eq (group_owner_key other) (group_key id) ≡ false
  unfolding group_owner_key group_key str_eq
  group_owner-group = not-ulid (codes "owner:" ++ other) id ulid refl

  pub in_group-route : str_eq (in_group_key other) (route_key id) ≡ false
  unfolding in_group_key route_key str_eq
  in_group-route = not-ulid (codes "in-group:" ++ other) id ulid refl

  pub by_owner-route : str_eq (by_owner_key other) (route_key id) ≡ false
  unfolding by_owner_key route_key str_eq
  by_owner-route = not-ulid (codes "by-owner:" ++ other) id ulid refl

  pub by_number-route : (n : ℕ) → str_eq (by_number_key other n) (route_key id) ≡ false
  unfolding by_number_key route_key str_eq
  by_number-route n = not-ulid (codes "by-number:" ++ _) id ulid refl

pub all-group : (id : Str) → IsUlid id → str_eq all_groups (group_key id) ≡ false
unfolding group_key str_eq
all-group id ulid = all-id id ulid

pub all-route : (id : Str) → IsUlid id → str_eq all_routes (route_key id) ≡ false
unfolding route_key str_eq
all-route id ulid = all-id id ulid

-- The indexes of groups do not collide.
pub by_name-owner : (name owner : Str) → str_eq (by_name_key name) (group_owner_key owner) ≡ false
unfolding by_name_key group_owner_key str_eq
by_name-owner name owner = refl

pub by_name-all : (name : Str) → str_eq (by_name_key name) all_groups ≡ false
unfolding by_name_key str_eq
by_name-all name = refl

pub owner-all : (owner : Str) → str_eq (group_owner_key owner) all_groups ≡ false
unfolding group_owner_key str_eq
owner-all owner = refl

-- The indexes of routes do not collide.
pub number-in_group : (g h : Str) (n : ℕ) → str_eq (by_number_key g n) (in_group_key h) ≡ false
unfolding by_number_key in_group_key str_eq
number-in_group g h n = refl

pub number-all : (g : Str) (n : ℕ) → str_eq (by_number_key g n) all_routes ≡ false
unfolding by_number_key str_eq
number-all g n = refl

pub number-owner : (g o : Str) (n : ℕ) → str_eq (by_number_key g n) (by_owner_key o) ≡ false
unfolding by_number_key by_owner_key str_eq
number-owner g o n = refl

pub in_group-all : (g : Str) → str_eq (in_group_key g) all_routes ≡ false
unfolding in_group_key str_eq
in_group-all g = refl

pub in_group-owner : (g o : Str) → str_eq (in_group_key g) (by_owner_key o) ≡ false
unfolding in_group_key by_owner_key str_eq
in_group-owner g o = refl

pub all-owner : (o : Str) → str_eq all_routes (by_owner_key o) ≡ false
unfolding by_owner_key str_eq
all-owner o = refl

pub route-route :
    (id other : Str) → str_eq id other ≡ false → str_eq (route_key id) (route_key other) ≡ false
unfolding route_key
route-route id other apart = prefix_cancel (codes "route:") id other ∙ apart
