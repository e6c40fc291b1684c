-- ===== src/Auth.antt =====
-- crates/wm-host/src/auth.rs: the users, their tokens, and who a token stands for. Times are numbers,
-- the new ids, the times and the plaintext of a new token are arguments, and what the code takes from
-- the crates chrono and sha2 is the codec. The children have the operations over the bucket without
-- a prefix.
pub mod Records
pub mod Laws
pub mod Stored
pub mod Users
pub mod Tokens
pub mod Access
pub mod Authenticate
pub mod Run
pub mod Sample
mod Tests
use wiremirage.Prelude.Text.{Str, codes}
use wiremirage.Prelude.{ℕ, Bool, Option, List, [], ◌∷◌, map}
use wiremirage.Prelude.Ascii.{to_lower}
use wiremirage.Prelude.Blank.{trim}
use wiremirage.Store.{StoreError, MemStore}
use wiremirage.Store.Action.{StorageError}
use wiremirage.Store.Action

-- An error keeps the name, the email or the field that its text is about. `out_of_range` is no error
-- of the code: it is a panic of chrono.
pub data AuthError : Type 0 where
  storage : StoreError → AuthError
  not_found : AuthError
  name_taken : Str → AuthError
  email_taken : Str → AuthError
  malformed : Str → AuthError
  out_of_range : AuthError

abbrev pub AuthAction : Type 0 → Type 0
AuthAction A = Action.Action AuthError A

instance abbrev pub auth_error : StorageError AuthError
auth_error = record { storage = storage }

pub record User : Type 0 where
  pub id : Str
  pub email : Str
  pub is_admin : Bool
  pub created_at : ℕ
  pub session_epoch : ℕ

pub record Token : Type 0 where
  pub id : Str
  pub name : Str
  pub owner_id : Str
  pub token_hash : Str
  pub created_at : ℕ
  pub last_used_at : Option ℕ
  pub expires_at : Option ℕ
  pub scopes : List Str

-- a JSON record of `mcp_oauth.rs`
pub record AccessToken : Type 0 where
  pub token_hash : Str
  pub client_id : Str
  pub user_id : Str
  pub scope : Str
  pub created_at : ℕ
  pub expires_at : ℕ

pub data CredentialKind : Type 0 where
  token session : CredentialKind

pub record AuthContext : Type 0 where
  pub user_id : Str
  pub user_email : Str
  pub is_admin : Bool
  pub credential_kind : CredentialKind
  pub credential_id : Str

abbrev pub default_scopes : List Str
default_scopes = codes "*" ∷ []

-- What the records need of chrono, sha2 and serde_json: the forms of a time, the time some seconds
-- after another, unless that panics, the digest of a text in hexadecimal, and the JSON of an access
-- token.
pub record AuthCodec : Type 0 where
  pub to_rfc3339 : ℕ → Str
  pub parse_from_rfc3339 : Str → Option ℕ
  pub plus_seconds : ℕ → ℕ → Option ℕ
  pub sha256_hex : Str → Str
  pub access_from_slice : Str → Option AccessToken

unfoldable pub normalize_email : Str → Str
normalize_email email = map to_lower (trim email)
