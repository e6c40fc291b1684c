-- ===== src/Auth/Stored/Keys.antt =====
-- crates/wm-host/src/auth.rs: the keys of users and of tokens do not collide, if the ids are ULIDs.
use wiremirage.Prelude.Text.{Str, codes, str_eq, str_eq_comm}
use wiremirage.Prelude.{false, ◌++◌, ◌≡◌, refl, ◌∙◌}
use wiremirage.Registry.Stored.Keys.{IsUlid, not-ulid, all-id}
use wiremirage.Auth.Stored.{
  user_key, by_email_key, by_handle_key, all_users, token_key, by_hash_key, token_name_key,
  token_owner_key,
}

module _ (id other : Str) (ulid : IsUlid id) where
  pub by_email-user : str_eq (by_email_key other) (user_key id) ≡ false
  unfolding by_email_key user_key str_eq
  by_email-user = not-ulid (codes "by-email:" ++ other) id ulid refl

  pub by_handle-user : str_eq (by_handle_key other) (user_key id) ≡ false
  unfolding by_handle_key user_key str_eq
  by_handle-user = not-ulid (codes "by-name:" ++ other) id ulid refl

  pub by_hash-token : str_eq (by_hash_key other) (token_key id) ≡ false
  unfolding by_hash_key token_key str_eq
  by_hash-token = not-ulid (codes "by-hash:" ++ other) id ulid refl

  pub token_owner-token : str_eq (token_owner_key other) (token_key id) ≡ false
  unfolding token_owner_key token_key str_eq
  token_owner-token = not-ulid (codes "by-owner:" ++ other) id ulid refl

  pub token_name-token : (name : Str) → str_eq (token_name_key other name) (token_key id) ≡ false
  unfolding token_name_key token_key str_eq
  token_name-token name = not-ulid (codes "by-name:" ++ _) id ulid refl

pub token-by_hash : (id other : Str) → IsUlid id → str_eq (token_key id) (by_hash_key other) ≡ false
token-by_hash id other ulid =
    str_eq_comm (token_key id) (by_hash_key other) ∙ by_hash-token id other ulid

pub all-user : (id : Str) → IsUlid id → str_eq all_users (user_key id) ≡ false
unfolding user_key str_eq
all-user id ulid = all-id id ulid

-- The keys of tokens and of users differ from their first byte on.
module _ (x y : Str) where
  pub token-user : str_eq (token_key x) (user_key y) ≡ false
  unfolding token_key user_key str_eq
  token-user = refl

  pub by_hash-user : str_eq (by_hash_key x) (user_key y) ≡ false
  unfolding by_hash_key user_key str_eq
  by_hash-user = refl

  pub token_owner-user : str_eq (token_owner_key x) (user_key y) ≡ false
  unfolding token_owner_key user_key str_eq
  token_owner-user = refl

  pub by_hash-token_owner : str_eq (token_owner_key x) (by_hash_key y) ≡ false
  unfolding token_owner_key by_hash_key str_eq
  by_hash-token_owner = refl

module _ (x name y : Str) where
  pub token_name-user : str_eq (token_name_key x name) (user_key y) ≡ false
  unfolding token_name_key user_key str_eq
  token_name-user = refl

  pub token_name-by_hash : str_eq (token_name_key x name) (by_hash_key y) ≡ false
  unfolding token_name_key by_hash_key str_eq
  token_name-by_hash = refl

  pub token_name-token_owner : str_eq (token_name_key x name) (token_owner_key y) ≡ false
  unfolding token_name_key token_owner_key str_eq
  token_name-token_owner = refl

pub by_email-all : (email : Str) → str_eq (by_email_key email) all_users ≡ false
unfolding by_email_key str_eq
by_email-all email = refl
