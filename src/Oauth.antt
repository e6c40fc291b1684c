-- ===== src/Oauth.antt =====
-- crates/wm-host/src/mcp_oauth.rs: the records of the authorization server for clients of MCP, and what
-- its token endpoint takes and gives. Times are numbers, as in the model of auth.rs.
pub mod Records
pub mod Grants
pub mod Revocation
pub mod Sample
mod Tests
use wiremirage.Prelude.Text.{Str}
use wiremirage.Prelude.{ℕ, Bool, Option, List, ◌*◌}
use wiremirage.Store.{StoreError}
use wiremirage.Store.Action.{Action, StorageError}
use wiremirage.Auth.{AccessToken}

abbrev pub access_token_ttl_seconds : ℕ
access_token_ttl_seconds = 3600

abbrev pub refresh_token_ttl_seconds : ℕ
refresh_token_ttl_seconds = 30 * 24 * 3600

abbrev pub pending_auth_ttl_seconds : ℕ
pending_auth_ttl_seconds = 600

abbrev pub auth_code_ttl_seconds : ℕ
auth_code_ttl_seconds = 600

pub data OauthStoreError : Type 0 where
  storage : StoreError → OauthStoreError
  malformed : Str → OauthStoreError
  not_found : OauthStoreError

abbrev pub OauthAction : Type 0 → Type 0
OauthAction A = Action OauthStoreError A

instance abbrev pub oauth_error : StorageError OauthStoreError
oauth_error = record { storage = storage }

pub record OauthClient : Type 0 where
  pub client_id : Str
  pub client_secret_hash : Str
  pub client_name : Str
  pub redirect_uris : List Str
  pub grant_types : List Str
  pub response_types : List Str
  pub token_endpoint_auth_method : Str
  pub created_at : ℕ
  pub last_used_at : Option ℕ
  pub revoked_at : Option ℕ

pub record PendingAuthorization : Type 0 where
  pub client_id : Str
  pub redirect_uri : Str
  pub code_challenge : Str
  pub code_challenge_method : Str
  pub scope : Str
  pub original_state : Option Str
  pub created_at : ℕ

pub record AuthorizationCode : Type 0 where
  pub code : Str
  pub client_id : Str
  pub user_id : Str
  pub redirect_uri : Str
  pub scope : Str
  pub code_challenge : Str
  pub code_challenge_method : Str
  pub created_at : ℕ
  pub used_at : Option ℕ

pub record RefreshToken : Type 0 where
  pub token_hash : Str
  pub client_id : Str
  pub user_id : Str
  pub scope : Str
  pub created_at : ℕ
  pub used_at : Option ℕ
  pub revoked_at : Option ℕ

-- What serde_json makes of a record, and reads.
pub record Json (A : Type 0) : Type 0 where
  pub to_vec : A → Option Str
  pub from_slice : Str → Option A

-- Of the crates: the JSON of each record, the digests, the check of a secret, the times, and what the
-- text of an `Authorization: Basic` header decodes to.
pub record OauthCodec : Type 0 where
  pub client : Json OauthClient
  pub pending : Json PendingAuthorization
  pub code : Json AuthorizationCode
  pub refresh : Json RefreshToken
  pub access : Json AccessToken
  pub hash_token : Str → Str
  pub challenge_of : Str → Str
  pub verify_password : Str → Str → Bool
  pub plus_seconds : ℕ → ℕ → ℕ
  pub num_seconds : ℕ → ℕ → ℕ
  pub decode_basic : Str → Option Str

pub record TokenForm : Type 0 where
  pub grant_type : Str
  pub code : Option Str
  pub redirect_uri : Option Str
  pub code_verifier : Option Str
  pub refresh_token : Option Str
  pub client_id : Option Str
  pub client_secret : Option Str

pub record TokenResponse : Type 0 where
  pub access_token : Str
  pub token_type : Str
  pub expires_in : ℕ
  pub scope : Str
  pub refresh_token : Option Str

-- The code of a response that is an error, with its description.
pub data OauthError : Type 0 where
  invalid_request invalid_client invalid_grant unsupported_grant_type : Str → OauthError
  server_error : OauthError
