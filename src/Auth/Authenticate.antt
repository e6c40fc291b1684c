-- ===== src/Auth/Authenticate.antt =====
-- crates/wm-host/src/auth.rs: whom a plaintext token stands for. The two times are those of the check
-- and of the note of the use.
use wiremirage.Prelude.Text.{Str, codes, starts_with}
use wiremirage.Prelude.{ℕ, Bool, false, Option, none, some, ltb, if◌then◌else◌}
use wiremirage.Store.Action.{◌>>=◌, ◌>>◌, return, get, hash_set, ignored}
use wiremirage.Auth.{
  AuthAction, auth_error, User, Token, AccessToken, AuthContext, CredentialKind, AuthCodec,
}
use wiremirage.Auth.Stored.{token_key, by_hash_key, id_of, read_user_by_id, read_token_by_id}
use wiremirage.Auth.Access.{load_access_token}

abbrev pub context : User → CredentialKind → Str → AuthContext
context user kind credential_id = record {
  user_id = user.id;
  user_email = user.email;
  is_admin = user.is_admin;
  credential_kind = kind;
  credential_id = credential_id;
}

-- `expires < now`, where there is an expiry
unfoldable pub has_expired : ℕ → Option ℕ → Bool
has_expired now none = false
has_expired now (some expires) = ltb expires now

module _ (codec : AuthCodec) where
  unfoldable pub owner_context : ℕ → Token → Option User → AuthAction (Option AuthContext)
  owner_context later record_of none = return none
  owner_context later record_of (some user) = do
    ignored (hash_set (token_key record_of.id) (codes "last_used_at") (codec.to_rfc3339 later))
    return (some (context user CredentialKind.token record_of.id))

  unfoldable pub token_context : ℕ → ℕ → Option Token → AuthAction (Option AuthContext)
  token_context now later none = return none
  token_context now later (some record_of) =
      if has_expired now record_of.expires_at
      then return none
      else (do user ← read_user_by_id codec record_of.owner_id; owner_context later record_of user)

  -- the token that an entry of the index by hash leads to
  unfoldable pub hashed_token : Option Str → AuthAction (Option Token)
  hashed_token none = return none
  hashed_token (some bytes) = do
    id ← id_of (codes "token:by-hash value") bytes
    read_token_by_id codec id

  unfoldable pub authenticate_wmt : ℕ → ℕ → Str → AuthAction (Option AuthContext)
  authenticate_wmt now later plaintext = do
    entry ← get (by_hash_key (codec.sha256_hex plaintext))
    found ← hashed_token entry
    token_context now later found

  unfoldable pub access_context : ℕ → Option AccessToken → AuthAction (Option AuthContext)
  access_context now none = return none
  access_context now (some access) = if ltb access.expires_at now then return none else (do
    user ← read_user_by_id codec access.user_id
    elim user [
      | none ↦ return none
      | some u ↦ return (some (context u CredentialKind.token access.token_hash))
    ])

  unfoldable pub authenticate_wmm : ℕ → Str → AuthAction (Option AuthContext)
  authenticate_wmm now plaintext = do
    access ← load_access_token codec (codec.sha256_hex plaintext)
    access_context now access

  unfoldable pub authenticate : ℕ → ℕ → Str → AuthAction (Option AuthContext)
  authenticate now later plaintext =
      if starts_with (codes "wmt_") plaintext
      then authenticate_wmt now later plaintext
      else if starts_with (codes "wmm_") plaintext
      then authenticate_wmm now plaintext
      else return none
