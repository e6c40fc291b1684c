-- ===== src/Oauth/Grants.antt =====
-- crates/wm-host/src/mcp_oauth.rs: the endpoint that gives tokens. What is drawn for a
-- request, and the times of it, are arguments.
pub mod Replay
pub mod Rotation
use wiremirage.Prelude.Text.{Str, codes, str_eq, strip_prefix}
use wiremirage.Prelude.Split.{split_once}
use wiremirage.Prelude.{
  ℕ, Bool, true, false, not, ◌&&◌, Option, none, some, is_some, Result, ok, err, if◌then◌else◌,
}
use wiremirage.Store.Action.{
  Action, ◌>>=◌, ◌>>◌, return, fail, checked, require_some, attempt, ignored, map_err,
}
use wiremirage.Auth.{AccessToken}
use wiremirage.Oauth.{
  OauthCodec, OauthClient, AuthorizationCode, RefreshToken, TokenForm, TokenResponse, OauthError,
  invalid_request, invalid_client, invalid_grant, unsupported_grant_type, server_error,
  access_token_ttl_seconds,
}
use wiremirage.Oauth.Records.{
  load_client, consume_authorization_code, save_access_token, find_access_token,
  delete_access_token, save_refresh_token, load_refresh_token, consume_refresh_token,
}

-- What a request for a token draws: the two plaintexts, and the times of the use of its code or
-- refresh token, of the new tokens, and of the life that the access token has left.
pub record Drawn : Type 0 where
  pub access_plaintext : Str
  pub refresh_plaintext : Str
  pub used_at : ℕ
  pub now : ℕ
  pub saved_at : ℕ

pub record ClientAuth : Type 0 where
  pub client_id : Str
  pub client_secret : Str

abbrev pub client_of : Str × Str → ClientAuth
client_of (id, secret) = record { client_id = id; client_secret = secret }

-- an `Authorization` header; it is `some none` where it is no text
abbrev pub Header : Type 0
Header = Option (Option Str)

abbrev pub paired : Option Str → Option Str → Option ClientAuth
paired (some id) (some secret) = some (client_of (id, secret))
paired (some id) none = none
paired none secret = none

unfoldable pub form_auth : TokenForm → Option ClientAuth
form_auth form = paired form.client_id form.client_secret

abbrev pub decoded_pair : Option Str → Option ClientAuth
decoded_pair none = none
decoded_pair (some text) = elim (split_once b':' text) [
  | none ↦ none
  | some pair ↦ some (client_of pair)
]

abbrev pub code_gone : OauthError
code_gone = invalid_grant (codes "authorization code not found, already used, or expired")

abbrev pub refresh_gone : OauthError
refresh_gone = invalid_grant (codes "refresh token not found, already used, revoked, or expired")

module _ (codec : OauthCodec) where
  unfoldable pub header_auth : Header → Option ClientAuth
  header_auth none = none
  header_auth (some none) = none
  header_auth (some (some raw)) = elim (strip_prefix (codes "Basic ") raw) [
    | none ↦ none
    | some b64 ↦ decoded_pair (codec.decode_basic b64)
  ]

  unfoldable pub extract_client_auth : Header → TokenForm → Option ClientAuth
  extract_client_auth header form = elim (header_auth header) [
    | some auth ↦ some auth
    | none ↦ form_auth form
  ]

  -- a client that is there and not revoked
  unfoldable pub unrevoked : Option (Option OauthClient) → Result OauthError OauthClient
  unrevoked none = err (invalid_client (codes "unknown or revoked client"))
  unrevoked (some none) = err (invalid_client (codes "unknown or revoked client"))
  unrevoked (some (some client)) =
      if is_some client.revoked_at
      then err (invalid_client (codes "unknown or revoked client"))
      else ok client

  unfoldable pub authenticated : Header → TokenForm → Action OauthError OauthClient
  authenticated header form = do
    auth ←
        require_some (invalid_client (codes "missing client credentials"))
          (extract_client_auth header form)
    found ← map_err (λ e. server_error) (attempt (load_client codec auth.client_id))
    client ← checked (unrevoked found)
    if codec.verify_password client.client_secret_hash auth.client_secret
        then return client
        else fail (invalid_client (codes "client authentication failed"))

  abbrev pub new_access : Drawn → Str → Str → Str → AccessToken
  new_access drawn client_id user_id scope = record {
    token_hash = codec.hash_token drawn.access_plaintext;
    client_id = client_id;
    user_id = user_id;
    scope = scope;
    created_at = drawn.now;
    expires_at = codec.plus_seconds drawn.now access_token_ttl_seconds;
  }

  abbrev pub new_refresh : Drawn → Str → Str → Str → RefreshToken
  new_refresh drawn client_id user_id scope = record {
    token_hash = codec.hash_token drawn.refresh_plaintext;
    client_id = client_id;
    user_id = user_id;
    scope = scope;
    created_at = drawn.now;
    used_at = none;
    revoked_at = none;
  }

  -- the pair of new tokens
  unfoldable pub issue : Drawn → Str → Str → Str → Action OauthError TokenResponse
  issue drawn client_id user_id scope = do
    map_err (λ e. server_error)
        (save_access_token codec drawn.saved_at (new_access drawn client_id user_id scope))
    map_err (λ e. server_error)
        (save_refresh_token codec (new_refresh drawn client_id user_id scope))
    return (record {
      access_token = drawn.access_plaintext;
      token_type = codes "Bearer";
      expires_in = access_token_ttl_seconds;
      scope = scope;
      refresh_token = some drawn.refresh_plaintext;
    })

  unfoldable pub check_code :
      OauthClient → Str → Str → AuthorizationCode → Result OauthError (Unit {0})
  check_code client redirect_uri verifier consumed =
      if not (str_eq consumed.client_id client.client_id)
      then err (invalid_grant (codes "code does not belong to this client"))
      else if not (str_eq consumed.redirect_uri redirect_uri)
      then err (invalid_grant (codes "redirect_uri does not match the code's binding"))
      else if not (str_eq (codec.challenge_of verifier) consumed.code_challenge)
      then err (invalid_grant (codes "PKCE verifier does not match challenge"))
      else ok tt

  -- a code that was used by this request
  unfoldable pub grant_code :
      OauthClient → Str → Str → Drawn → AuthorizationCode → Action OauthError TokenResponse
  grant_code client redirect_uri verifier drawn consumed = do
    checked (check_code client redirect_uri verifier consumed)
    issue drawn client.client_id consumed.user_id consumed.scope

  unfoldable pub exchange_code :
      OauthClient → Str → Str → Str → Drawn → Action OauthError TokenResponse
  exchange_code client code redirect_uri verifier drawn = do
    found ← map_err (λ e. server_error) (consume_authorization_code codec drawn.used_at code)
    consumed ← require_some code_gone found
    grant_code client redirect_uri verifier drawn consumed

  unfoldable pub handle_authorization_code_grant :
      OauthClient → TokenForm → Drawn → Action OauthError TokenResponse
  handle_authorization_code_grant client form drawn = do
    code ← require_some (invalid_request (codes "missing `code`")) form.code
    redirect_uri ← require_some (invalid_request (codes "missing `redirect_uri`")) form.redirect_uri
    verifier ←
        require_some (invalid_request (codes "missing PKCE `code_verifier`")) form.code_verifier
    exchange_code client code redirect_uri verifier drawn

  -- a refresh token that was used by this request
  unfoldable pub grant_refresh :
      OauthClient → Drawn → RefreshToken → Action OauthError TokenResponse
  grant_refresh client drawn consumed =
      if not (str_eq consumed.client_id client.client_id)
      then fail (invalid_grant (codes "refresh token does not belong to this client"))
      else issue drawn consumed.client_id consumed.user_id consumed.scope

  unfoldable pub exchange_refresh : OauthClient → Str → Drawn → Action OauthError TokenResponse
  exchange_refresh client plaintext drawn = do
    found ←
        map_err (λ e. server_error)
          (consume_refresh_token codec drawn.used_at (codec.hash_token plaintext))
    consumed ← require_some refresh_gone found
    grant_refresh client drawn consumed

  unfoldable pub handle_refresh_token_grant :
      OauthClient → TokenForm → Drawn → Action OauthError TokenResponse
  handle_refresh_token_grant client form drawn = do
    plaintext ← require_some (invalid_request (codes "missing `refresh_token`")) form.refresh_token
    exchange_refresh client plaintext drawn

  unfoldable pub token : Header → TokenForm → Drawn → Action OauthError TokenResponse
  token header form drawn = do
    client ← authenticated header form
    if str_eq form.grant_type (codes "authorization_code")
        then handle_authorization_code_grant client form drawn
        else if str_eq form.grant_type (codes "refresh_token")
        then handle_refresh_token_grant client form drawn
        else fail (unsupported_grant_type form.grant_type)
