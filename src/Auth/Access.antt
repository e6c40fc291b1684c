-- ===== src/Auth/Access.antt =====
-- crates/wm-host/src/mcp_oauth.rs: the read of an access token, which is one field of JSON.
use wiremirage.Prelude.Text.{Str, codes}
use wiremirage.Prelude.{Option, none, some, ◌++◌}
use wiremirage.Store.Action.{◌>>=◌, return, fail, hash_get}
use wiremirage.Auth.{AuthAction, auth_error, malformed, AccessToken, AuthCodec}

unfoldable pub access_key : Str → Str
access_key digest = codes "oauth:access:" ++ digest

-- The errors of the store and of the JSON, as `authenticate_wmm` passes them on.
module _ (codec : AuthCodec) where
  unfoldable pub read_json : Option Str → AuthAction (Option AccessToken)
  read_json none = return none
  read_json (some bytes) = elim (codec.access_from_slice bytes) [
    | none ↦ fail (malformed (codes "decode JSON"))
    | some access ↦ return (some access)
  ]

  unfoldable pub load_access_token : Str → AuthAction (Option AccessToken)
  load_access_token digest = do bytes ← hash_get (access_key digest) (codes "data"); read_json bytes
