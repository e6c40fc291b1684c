-- ===== src/Oauth/Tests.antt =====
-- Runs of the token endpoint of crates/wm-host/src/mcp_oauth.rs, and instances of its theorems.
use wiremirage.Prelude.Text.{codes, str_eq, starts_with}
use wiremirage.Prelude.{some, ok, err, ◌≡◌, refl}
use wiremirage.Store.{MemStore}
use wiremirage.Auth.Run.{authority}
use wiremirage.Store.Action.{set_ttl}
use wiremirage.Store.Bucket
use wiremirage.Store.Memory
use wiremirage.Oauth.{TokenResponse, invalid_grant}
use wiremirage.Oauth.Records.{
  client_key, code_key, refresh_key, refresh_user_index_key, write_json_hash, parsed_json,
  read_json_hash, save_authorization_code, use_code, consume_authorization_code, save_refresh_token,
  use_refresh, consume_refresh_token, access_ttl, save_access_token,
}
use wiremirage.Oauth.Grants.{
  issue, check_code, grant_code, code_gone, exchange_code, handle_authorization_code_grant,
  grant_refresh, refresh_gone, exchange_refresh, handle_refresh_token_grant,
}
use wiremirage.Oauth.Grants.Replay.{handle_authorization_code_grant-replayed}
use wiremirage.Oauth.Grants.Rotation.{handle_refresh_token_grant-replayed}
use wiremirage.Oauth.Sample.{
  code_json-IsJson, refresh_json-IsJson, plain, client, with_code, code_form, refresh_form, first,
  second,
}

unfoldable granting : Unit {0}
unfolding authority set_ttl Bucket.hash_get Memory.hash_get client_key code_key refresh_key
    refresh_user_index_key write_json_hash parsed_json read_json_hash save_authorization_code
    use_code consume_authorization_code save_refresh_token use_refresh consume_refresh_token
    access_ttl save_access_token issue check_code grant_code exchange_code
    handle_authorization_code_grant grant_refresh exchange_refresh handle_refresh_token_grant
granting = tt

abbrev granted : TokenResponse
granted = record {
  access_token = codes "wmm_1";
  token_type = codes "Bearer";
  expires_in = 3600;
  scope = codes "*";
  refresh_token = some (codes "wmr_1");
}

abbrev after_code : MemStore
after_code = (handle_authorization_code_grant plain client code_form first with_code).1

code_given :
    handle_authorization_code_grant plain client code_form first with_code
    ≡ (ok granted, after_code)
unfolding granting
code_given = refl

refused :
    (handle_authorization_code_grant plain client
      (record code_form { code_verifier = some (codes "w") })
      first
      with_code).0
    ≡ err (invalid_grant (codes "PKCE verifier does not match challenge"))
unfolding granting
refused = refl

handle_authorization_code_grant-replayed_example :
    handle_authorization_code_grant plain client code_form second after_code
    ≡ (err code_gone, after_code)
handle_authorization_code_grant-replayed_example =
    handle_authorization_code_grant-replayed plain client client code_form code_form first second
      (codes "c0de") (codes "http://127.0.0.1/cb") (codes "v") granted with_code after_code
      code_json-IsJson refl code_given refl refl refl

abbrev rotated : TokenResponse
rotated = record granted { access_token = codes "wmm_2"; refresh_token = some (codes "wmr_2") }

abbrev after_refresh : MemStore
after_refresh =
    (handle_refresh_token_grant plain client (refresh_form (codes "wmr_1")) second after_code).1

refresh_given :
    handle_refresh_token_grant plain client (refresh_form (codes "wmr_1")) second after_code
    ≡ (ok rotated, after_refresh)
unfolding granting
refresh_given = refl

handle_refresh_token_grant-replayed_example :
    handle_refresh_token_grant plain client (refresh_form (codes "wmr_1")) first after_refresh
    ≡ (err refresh_gone, after_refresh)
unfolding starts_with str_eq
handle_refresh_token_grant-replayed_example =
    handle_refresh_token_grant-replayed plain client client (refresh_form (codes "wmr_1"))
      (refresh_form (codes "wmr_1")) second first (codes "wmr_1") rotated after_code after_refresh
      refresh_json-IsJson refl refl refl refresh_given refl
