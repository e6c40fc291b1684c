-- ===== src/Auth/Tokens.antt =====
-- crates/wm-host/src/auth.rs: the operations on tokens, and those on users that need them. The new
-- ids, the time of a creation and the plaintext of a new token are arguments.
pub mod Bootstrap
pub mod Created
pub mod Valid
pub mod Leftovers
pub mod Revoked
use wiremirage.Prelude.Text.{Str, codes, str_eq}
use wiremirage.Prelude.Split.{join}
use wiremirage.Prelude.{
  ℕ, Bool, true, false, Option, none, some, is_some, List, [], ◌∷◌, Result, ok, err, if◌then◌else◌,
}
use wiremirage.Store.Action.{
  ◌>>=◌, ◌>>◌, return, fail, checked, require_some, for_each, get, set, set_add, set_remove,
  set_members, hash_set, delete, delete_fields,
}
use wiremirage.Auth.{
  AuthAction, auth_error, AuthError, not_found, name_taken, out_of_range, User, Token, AuthCodec,
  default_scopes,
}
use wiremirage.Auth.Stored.{
  user_key, by_email_key, by_handle_key, all_users, token_key, by_hash_key, token_name_key,
  token_owner_key, id_of, read_user_by_id, read_token_by_id,
}

-- The fields that a deletion of a token deletes, and one of a user.
abbrev pub token_fields : List Str
token_fields =
    codes "id"
    ∷ codes "name"
    ∷ codes "owner_id"
    ∷ codes "hash"
    ∷ codes "created_at"
    ∷ codes "expires_at"
    ∷ codes "last_used_at"
    ∷ codes "scopes"
    ∷ []

abbrev pub user_fields : List Str
user_fields =
    codes "id" ∷ codes "name" ∷ codes "primary_email" ∷ codes "is_admin" ∷ codes "created_at" ∷ []

unfoldable pub delete_token : Token → AuthAction (Unit {0})
delete_token token = do
  delete (by_hash_key token.token_hash)
  delete (token_name_key token.owner_id token.name)
  set_remove (token_owner_key token.owner_id) token.id
  delete_fields (token_key token.id) token_fields

unfoldable pub dropped : Option Token → AuthAction (Unit {0})
dropped none = return tt
dropped (some token) = delete_token token

module _ (codec : AuthCodec) where
  -- `ttl_seconds.map(|s| now + Duration::seconds(s as i64))`
  unfoldable pub expiry : ℕ → Option ℕ → Result AuthError (Option ℕ)
  expiry now none = ok none
  expiry now (some seconds) = elim (codec.plus_seconds now seconds) [
    | none ↦ err out_of_range
    | some t ↦ ok (some t)
  ]

  unfoldable pub write_expiry : Str → Option ℕ → AuthAction (Unit {0})
  write_expiry key none = return tt
  write_expiry key (some t) = hash_set key (codes "expires_at") (codec.to_rfc3339 t)

  unfoldable pub write_token_fields : Str → Token → AuthAction (Unit {0})
  write_token_fields key token = do
    hash_set key (codes "id") token.id
    hash_set key (codes "name") token.name
    hash_set key (codes "owner_id") token.owner_id
    hash_set key (codes "hash") token.token_hash
    hash_set key (codes "created_at") (codec.to_rfc3339 token.created_at)
    write_expiry key token.expires_at
    hash_set key (codes "scopes") (join b' ' token.scopes)

  abbrev pub new_token : Str → ℕ → Str → Str → Str → Option ℕ → Token
  new_token id now owner_id name plaintext expires_at = record {
    id = id;
    name = name;
    owner_id = owner_id;
    token_hash = codec.sha256_hex plaintext;
    created_at = now;
    last_used_at = none;
    expires_at = expires_at;
    scopes = default_scopes;
  }

  unfoldable pub store_token : Token → AuthAction (Unit {0})
  store_token token = do
    write_token_fields (token_key token.id) token
    set (by_hash_key token.token_hash) token.id
    set (token_name_key token.owner_id token.name) token.id
    set_add (token_owner_key token.owner_id) token.id

  unfoldable pub write_new_token : Str → ℕ → Str → Str → Str → Option ℕ → AuthAction Token
  write_new_token id now owner_id name plaintext ttl_seconds = do
    expires_at ← checked (expiry now ttl_seconds)
    store_token (new_token id now owner_id name plaintext expires_at)
    return (new_token id now owner_id name plaintext expires_at)

  unfoldable pub create_token : Str → ℕ → Str → Str → Str → Option ℕ → AuthAction (Token × Str)
  create_token id now owner_id name plaintext ttl_seconds = do
    owner ← read_user_by_id codec owner_id
    _ ← require_some not_found owner
    taken ← get (token_name_key owner_id name)
    if is_some taken then fail (name_taken name) else (do
      token ← write_new_token id now owner_id name plaintext ttl_seconds
      return (token, plaintext))

  -- the token in an entry of the index by name
  unfoldable pub named_token : Option Str → AuthAction (Option Token)
  named_token none = return none
  named_token (some bytes) = do
    id ← id_of (codes "token:by-name value") bytes
    read_token_by_id codec id

  unfoldable pub get_token_by_name : Str → Str → AuthAction (Option Token)
  get_token_by_name owner_id name = do entry ← get (token_name_key owner_id name); named_token entry

  -- the records of the ids, without the missing ones
  unfoldable pub read_tokens : List Str → AuthAction (List Token)
  read_tokens [] = return []
  read_tokens (id ∷ ids) = do
    token ← read_token_by_id codec id
    rest ← read_tokens ids
    elim token [ none ↦ return rest | some t ↦ return (t ∷ rest) ]

  unfoldable pub list_tokens_for : Str → AuthAction (List Token)
  list_tokens_for owner_id = do ids ← set_members (token_owner_key owner_id); read_tokens ids

  -- The new index entry, then the name in the record, then the old entry.
  unfoldable pub write_token_name : Str → Str → Str → Token → AuthAction Token
  write_token_name owner_id old_name new_name token = do
    set (token_name_key owner_id new_name) token.id
    hash_set (token_key token.id) (codes "name") new_name
    delete (token_name_key owner_id old_name)
    return (record token { name = new_name })

  unfoldable pub rename_other : Str → Str → Str → AuthAction Token
  rename_other owner_id old_name new_name = do
    taken ← get (token_name_key owner_id new_name)
    if is_some taken then fail (name_taken new_name) else (do
      found ← get_token_by_name owner_id old_name
      token ← require_some not_found found
      write_token_name owner_id old_name new_name token)

  unfoldable pub rename_token : Str → Str → Str → AuthAction Token
  rename_token owner_id old_name new_name =
      if str_eq old_name new_name
      then (do found ← get_token_by_name owner_id old_name; require_some not_found found)
      else rename_other owner_id old_name new_name

  unfoldable pub revoke_token_by_name : Str → Str → AuthAction Bool
  revoke_token_by_name owner_id name = do
    found ← get_token_by_name owner_id name
    elim found [ none ↦ return false | some token ↦ do delete_token token; return true ]

  -- one token of a deleted user
  unfoldable pub drop_token : Str → AuthAction (Unit {0})
  drop_token id = do found ← read_token_by_id codec id; dropped found

  -- the tokens, then the indexes, then the record
  unfoldable pub drop_user : User → AuthAction (Unit {0})
  drop_user user = do
    ids ← set_members (token_owner_key user.id)
    for_each drop_token ids
    delete (by_email_key user.email)
    delete (by_handle_key user.email)
    set_remove all_users user.id
    delete_fields (user_key user.id) user_fields

  unfoldable pub delete_user : Str → AuthAction (Unit {0})
  delete_user id = do
    found ← read_user_by_id codec id
    user ← require_some not_found found
    drop_user user
