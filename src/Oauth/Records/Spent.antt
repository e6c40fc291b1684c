-- ===== src/Oauth/Records/Spent.antt =====
-- crates/wm-host/src/mcp_oauth.rs: what a code or a refresh token that was used once has left.
use wiremirage.Prelude.Text.{Str}
use wiremirage.Prelude.{
  ℕ, ◌||◌, Bool, true, false, Option, none, some, is_some, ok, ◌≡◌, refl, ap, ◌∙◌, if◌then◌else◌,
}
use wiremirage.Store.{MemStore}
use wiremirage.Store.Action.{◌>>◌, return}
use wiremirage.Store.Reads.{bind-eq-ok, reading-run}
use wiremirage.Oauth.{oauth_error, Json, OauthCodec, AuthorizationCode, RefreshToken}
use wiremirage.Oauth.Records.{
  code_key, refresh_key, write_json_hash, read_json_hash, use_code, consume_authorization_code,
  use_refresh, consume_refresh_token,
}
use wiremirage.Oauth.Records.Written.{
  IsJson, Reads, write_json_hash-Reads, read_json_hash-IsReading,
}

-- A code that was used: no request can use it again.
pub record IsSpentCode (codec : OauthCodec) (code : Str) (m : MemStore) : Type 0 where
  pub left : AuthorizationCode
  pub there : Reads codec.code (code_key code) m left
  pub used : is_some left.used_at ≡ true

-- A refresh token that was used.
pub record IsSpentRefresh (codec : OauthCodec) (digest : Str) (m : MemStore) : Type 0 where
  pub left : RefreshToken
  pub there : Reads codec.refresh (refresh_key digest) m left
  pub used : is_some left.used_at ≡ true

module _ {A : Type 0} (json : Json A) (key : Str) where
  -- a use of a record, if it is not gone, writes it
  spent-Reads :
      (gone : Bool) (left a : A) (m n : MemStore)
      → IsJson json
      → (if gone then return none else (write_json_hash json key left >> return (some left))) m
        ≡ (ok (some a), n)
      → Reads json key n left
  spent-Reads true left a m n laws given = cc (ap (λ r. r.0) given)
  spent-Reads false left a m n laws given =
      bind-eq-ok (Reads json key n left) (write_json_hash json key left) (λ u. return (some left)) m
        given
        λ u t written rest.
          write_json_hash-Reads json key left m n laws (written ∙ ap (λ r. (ok tt, r.1)) rest)

module _ (codec : OauthCodec) (now : ℕ) where
  used_code :
      (code : Str) (found : Option AuthorizationCode) (c : AuthorizationCode) (m n : MemStore)
      → IsJson codec.code
      → use_code codec now (code_key code) found m ≡ (ok (some c), n)
      → IsSpentCode codec code n
  unfolding use_code
  used_code code none c m n laws given = cc (ap (λ r. r.0) given)
  used_code code (some found) c m n laws given =
      let left : AuthorizationCode = record found { used_at = some now } in
      record {
        left = left;
        there =
            spent-Reads codec.code (code_key code) (is_some found.used_at) left c m n laws given;
        used = refl;
      }

  -- After a use of a code that gave it, the code is spent.
  pub consume_authorization_code-IsSpentCode :
      (code : Str) (c : AuthorizationCode) (m n : MemStore)
      → IsJson codec.code
      → consume_authorization_code codec now code m ≡ (ok (some c), n)
      → IsSpentCode codec code n
  unfolding consume_authorization_code
  consume_authorization_code-IsSpentCode code c m n laws given =
      bind-eq-ok (IsSpentCode codec code n) (read_json_hash codec.code (code_key code))
        (use_code codec now (code_key code)) m given
        λ found t read rest. used_code code found c t n laws rest

  pub consume_authorization_code-spent :
      (code : Str) (m : MemStore)
      → IsSpentCode codec code m
      → consume_authorization_code codec now code m ≡ (ok none, m)
  unfolding consume_authorization_code use_code
  consume_authorization_code-spent code m spent =
      let found =
        reading-run (read_json_hash codec.code (code_key code)) m (ok (some spent.left))
          (read_json_hash-IsReading codec.code (code_key code)) (spent.there) in
      rw (found) (rw (spent.used, use_code) refl)

  used_refresh :
      (digest : Str) (found : Option RefreshToken) (c : RefreshToken) (m n : MemStore)
      → IsJson codec.refresh
      → use_refresh codec now (refresh_key digest) found m ≡ (ok (some c), n)
      → IsSpentRefresh codec digest n
  unfolding use_refresh
  used_refresh digest none c m n laws given = cc (ap (λ r. r.0) given)
  used_refresh digest (some found) c m n laws given =
      let left : RefreshToken = record found { used_at = some now } in
      record {
        left = left;
        there =
            spent-Reads codec.refresh (refresh_key digest)
              (is_some found.used_at || is_some found.revoked_at) left c m n laws given;
        used = refl;
      }

  -- After a use of a refresh token that gave it, the token is spent.
  pub consume_refresh_token-IsSpentRefresh :
      (digest : Str) (c : RefreshToken) (m n : MemStore)
      → IsJson codec.refresh
      → consume_refresh_token codec now digest m ≡ (ok (some c), n)
      → IsSpentRefresh codec digest n
  unfolding consume_refresh_token
  consume_refresh_token-IsSpentRefresh digest c m n laws given =
      bind-eq-ok (IsSpentRefresh codec digest n) (read_json_hash codec.refresh (refresh_key digest))
        (use_refresh codec now (refresh_key digest)) m given
        λ found t read rest. used_refresh digest found c t n laws rest

  pub consume_refresh_token-spent :
      (digest : Str) (m : MemStore)
      → IsSpentRefresh codec digest m
      → consume_refresh_token codec now digest m ≡ (ok none, m)
  unfolding consume_refresh_token use_refresh
  consume_refresh_token-spent digest m spent =
      let found =
        reading-run (read_json_hash codec.refresh (refresh_key digest)) m (ok (some spent.left))
          (read_json_hash-IsReading codec.refresh (refresh_key digest)) (spent.there) in
      rw (found) (rw (spent.used, use_refresh) refl)
