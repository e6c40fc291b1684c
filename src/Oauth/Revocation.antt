-- ===== src/Oauth/Revocation.antt =====
-- crates/wm-host/src/mcp_oauth.rs: the endpoint that revokes a token. The time is an argument.
use wiremirage.Prelude.Text.{Str, codes, str_eq}
use wiremirage.Prelude.{ℕ, not, ◌&&◌, Option, none, some, is_some, if◌then◌else◌}
use wiremirage.Store.Action.{Action, ◌>>=◌, return, attempt, ignored, map_err}
use wiremirage.Auth.{AccessToken}
use wiremirage.Oauth.{OauthCodec, OauthClient, RefreshToken, TokenForm, OauthError, server_error}
use wiremirage.Oauth.Records.{
  find_access_token, delete_access_token, save_refresh_token, load_refresh_token,
}
use wiremirage.Oauth.Grants.{Header, authenticated}

pub record RevokeForm : Type 0 where
  pub token : Str
  pub token_type_hint : Option Str
  pub client_id : Option Str
  pub client_secret : Option Str

-- the form with the credentials of a revocation
abbrev pub token_form : RevokeForm → TokenForm
token_form form = record {
  grant_type = codes "_revoke_";
  code = none;
  redirect_uri = none;
  code_verifier = none;
  refresh_token = none;
  client_id = form.client_id;
  client_secret = form.client_secret;
}

module _ (codec : OauthCodec) where
  -- the refresh token of the client, which is marked as revoked
  unfoldable pub revoke_refresh :
      ℕ → OauthClient → Option (Option RefreshToken) → Action OauthError (Unit {0})
  revoke_refresh now client none = return tt
  revoke_refresh now client (some none) = return tt
  revoke_refresh now client (some (some refresh)) =
      if str_eq refresh.client_id client.client_id && not (is_some refresh.revoked_at)
      then map_err (λ e. server_error)
          (ignored (save_refresh_token codec (record refresh { revoked_at = some now })))
      else return tt

  unfoldable pub revoke_access : OauthClient → Str → AccessToken → Action OauthError (Unit {0})
  revoke_access client digest access =
      if str_eq access.client_id client.client_id
      then map_err (λ e. server_error) (ignored (delete_access_token digest))
      else return tt

  unfoldable pub revoke_token : ℕ → OauthClient → Str → Action OauthError (Unit {0})
  revoke_token now client digest = do
    found ← map_err (λ e. server_error) (attempt (find_access_token codec digest))
    elim found [
      | some (some access) ↦ revoke_access client digest access
      | some none ↦ do
        refresh ← map_err (λ e. server_error) (attempt (load_refresh_token codec digest))
        revoke_refresh now client refresh
      | none ↦ do
        refresh ← map_err (λ e. server_error) (attempt (load_refresh_token codec digest))
        revoke_refresh now client refresh
    ]

  unfoldable pub revoke : ℕ → Header → RevokeForm → Action OauthError (Unit {0})
  revoke now header form = do
    client ← authenticated codec header (token_form form)
    revoke_token now client (codec.hash_token form.token)
