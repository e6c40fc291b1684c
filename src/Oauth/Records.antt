-- ===== src/Oauth/Records.antt =====
-- crates/wm-host/src/mcp_oauth.rs: the records in the store, each one field of JSON. The time of a use
-- or a revocation is an argument.
pub mod Written
pub mod Spent
use wiremirage.Prelude.Text.{Str, codes, str_eq}
use wiremirage.Prelude.{
  ℕ, ◌+◌, ◌||◌, ◌==◌, Bool, true, false, Option, none, some, is_some, List, [], ◌∷◌, ◌++◌,
  if◌then◌else◌,
}
use wiremirage.Store.Action.{
  ◌>>=◌, ◌>>◌, return, fail, require_some, hash_get, hash_set, delete, set_add, set_members,
  set_ttl,
}
use wiremirage.Auth.{AccessToken}
use wiremirage.Auth.Access.{access_key}
use wiremirage.Oauth.{
  OauthAction, oauth_error, OauthStoreError, malformed, Json, OauthCodec, OauthClient,
  PendingAuthorization, AuthorizationCode, RefreshToken, refresh_token_ttl_seconds,
  pending_auth_ttl_seconds, auth_code_ttl_seconds,
}

unfoldable pub client_key : Str → Str
client_key client_id = codes "oauth:client:" ++ client_id

unfoldable pub pending_key : Str → Str
pending_key state = codes "oauth:pending:" ++ state

unfoldable pub code_key : Str → Str
code_key code = codes "oauth:code:" ++ code

unfoldable pub refresh_key : Str → Str
refresh_key digest = codes "oauth:refresh:" ++ digest

unfoldable pub refresh_user_index_key : Str → Str
refresh_user_index_key user_id = codes "oauth:refresh:by-user:" ++ user_id

unfoldable pub write_json_hash : {A : Type 0} → Json A → Str → A → OauthAction (Unit {0})
write_json_hash json key value = do
  bytes ← require_some (malformed (codes "encode JSON")) (json.to_vec value)
  hash_set key (codes "data") bytes

unfoldable pub parsed_json : {A : Type 0} → Json A → Option Str → OauthAction (Option A)
parsed_json json none = return none
parsed_json json (some bytes) = elim (json.from_slice bytes) [
  | none ↦ fail (malformed (codes "decode JSON"))
  | some value ↦ return (some value)
]

unfoldable pub read_json_hash : {A : Type 0} → Json A → Str → OauthAction (Option A)
read_json_hash json key = do bytes ← hash_get key (codes "data"); parsed_json json bytes

module _ (codec : OauthCodec) where
  unfoldable pub save_client : OauthClient → OauthAction (Unit {0})
  save_client client = write_json_hash codec.client (client_key client.client_id) client

  unfoldable pub load_client : Str → OauthAction (Option OauthClient)
  load_client client_id = read_json_hash codec.client (client_key client_id)

  unfoldable pub revoke_found : ℕ → Str → Option OauthClient → OauthAction Bool
  revoke_found now key none = return false
  revoke_found now key (some client) = if is_some client.revoked_at then return false else (do
    write_json_hash codec.client key (record client { revoked_at = some now })
    return true)

  unfoldable pub revoke_client : ℕ → Str → OauthAction Bool
  revoke_client now client_id = do
    found ← load_client client_id
    revoke_found now (client_key client_id) found

  unfoldable pub save_pending : Str → PendingAuthorization → OauthAction (Unit {0})
  save_pending state pending = do
    write_json_hash codec.pending (pending_key state) pending
    set_ttl (pending_key state) pending_auth_ttl_seconds

  unfoldable pub consume_pending : Str → OauthAction (Option PendingAuthorization)
  consume_pending state = do
    pending ← read_json_hash codec.pending (pending_key state)
    if is_some pending then (do delete (pending_key state); return pending) else return pending

  unfoldable pub save_authorization_code : AuthorizationCode → OauthAction (Unit {0})
  save_authorization_code record_of = do
    write_json_hash codec.code (code_key record_of.code) record_of
    set_ttl (code_key record_of.code) auth_code_ttl_seconds

  unfoldable pub use_code :
      ℕ → Str → Option AuthorizationCode → OauthAction (Option AuthorizationCode)
  use_code now key none = return none
  use_code now key (some record_of) = if is_some record_of.used_at then return none else (do
    write_json_hash codec.code key (record record_of { used_at = some now })
    return (some (record record_of { used_at = some now })))

  unfoldable pub consume_authorization_code : ℕ → Str → OauthAction (Option AuthorizationCode)
  consume_authorization_code now code = do
    found ← read_json_hash codec.code (code_key code)
    use_code now (code_key code) found

  unfoldable pub save_refresh_token : RefreshToken → OauthAction (Unit {0})
  save_refresh_token token = do
    write_json_hash codec.refresh (refresh_key token.token_hash) token
    set_ttl (refresh_key token.token_hash) refresh_token_ttl_seconds
    set_add (refresh_user_index_key token.user_id) token.token_hash

  unfoldable pub load_refresh_token : Str → OauthAction (Option RefreshToken)
  load_refresh_token digest = read_json_hash codec.refresh (refresh_key digest)

  unfoldable pub use_refresh : ℕ → Str → Option RefreshToken → OauthAction (Option RefreshToken)
  use_refresh now key none = return none
  use_refresh now key (some token) =
      if is_some token.used_at || is_some token.revoked_at then return none else (do
        write_json_hash codec.refresh key (record token { used_at = some now })
        return (some (record token { used_at = some now })))

  unfoldable pub consume_refresh_token : ℕ → Str → OauthAction (Option RefreshToken)
  consume_refresh_token now digest = do
    found ← read_json_hash codec.refresh (refresh_key digest)
    use_refresh now (refresh_key digest) found

  -- `num_seconds().max(1)`: the record is read at `now`
  unfoldable pub access_ttl : AccessToken → ℕ → ℕ
  access_ttl token now =
      let left = codec.num_seconds now token.expires_at in if left == 0 then 1 else left

  unfoldable pub save_access_token : ℕ → AccessToken → OauthAction (Unit {0})
  save_access_token now token = do
    write_json_hash codec.access (access_key token.token_hash) token
    set_ttl (access_key token.token_hash) (access_ttl token now)

  unfoldable pub find_access_token : Str → OauthAction (Option AccessToken)
  find_access_token digest = read_json_hash codec.access (access_key digest)

  -- one grant: whether it is one of the client that was not revoked
  unfoldable pub revoke_grant : ℕ → Str → Option RefreshToken → OauthAction ℕ
  revoke_grant now client_id none = return 0
  revoke_grant now client_id (some refresh) =
      if str_eq refresh.client_id client_id
      then (if is_some refresh.revoked_at
          then return 0
          else (do save_refresh_token (record refresh { revoked_at = some now }); return 1))
      else return 0

  unfoldable pub revoke_grants : ℕ → Str → List Str → OauthAction ℕ
  revoke_grants now client_id [] = return 0
  revoke_grants now client_id (digest ∷ digests) = do
    refresh ← load_refresh_token digest
    one ← revoke_grant now client_id refresh
    rest ← revoke_grants now client_id digests
    return (one + rest)

  unfoldable pub revoke_grants_for_client : ℕ → Str → Str → OauthAction ℕ
  revoke_grants_for_client now user_id client_id = do
    digests ← set_members (refresh_user_index_key user_id)
    revoke_grants now client_id digests

unfoldable pub delete_access_token : Str → OauthAction (Unit {0})
delete_access_token digest = delete (access_key digest)
