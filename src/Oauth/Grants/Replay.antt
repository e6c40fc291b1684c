-- ===== src/Oauth/Grants/Replay.antt =====
-- crates/wm-host/src/mcp_oauth.rs: a code and a refresh token are good for one request.
use wiremirage.Prelude.Text.{Str, str_eq}
use wiremirage.Prelude.Assoc.{lookup}
use wiremirage.Prelude.{
  false, Option, none, some, Result, ok, err, ◌≡◌, refl, ap, sym, ◌∙◌, ap₂, ok-injective, subst,
}
use wiremirage.Store.{MemStore}
use wiremirage.Store.Action.{Action, ◌>>=◌, checked, require_some, set_ttl, map_err, with_error}
use wiremirage.Store.Reads.{bind-eq-ok}
use wiremirage.Store.Keeps.{Keeps, bind-Keeps, set_add-Keeps}
use wiremirage.Auth.Access.{access_key}
use wiremirage.Oauth.{
  oauth_error, OauthCodec, OauthClient, AuthorizationCode, TokenForm, TokenResponse, server_error,
}
use wiremirage.Oauth.Records.{
  code_key, refresh_key, refresh_user_index_key, write_json_hash, save_access_token,
  save_refresh_token, consume_authorization_code,
}
use wiremirage.Oauth.Records.Written.{IsJson, Reads-moved, write_json_hash-Keeps}
use wiremirage.Oauth.Records.Spent.{
  IsSpentCode, consume_authorization_code-IsSpentCode, consume_authorization_code-spent,
}
use wiremirage.Oauth.Grants.{
  Drawn, new_access, new_refresh, issue, check_code, grant_code, code_gone, exchange_code,
  handle_authorization_code_grant,
}

map_err-Keeps :
    {E F A : Type 0} (j : Str) (f : E → F) (a : Action E A) → Keeps j a → Keeps j (map_err f a)
map_err-Keeps j f a keeps = keeps

pub with_error-eq-ok :
    {E F A : Type 0} (f : E → F) (r : Result E A × MemStore) {x : A} {t : MemStore}
    → ◌≡◌ {A = Result F A × MemStore} (with_error f r.0, r.1) (ok x, t)
    → r ≡ (ok x, t)
with_error-eq-ok f (ok a, s) {x} {t} h =
    ap₂ (λ b n. (ok b, n)) (ok-injective a x (ap (λ p. p.0) h)) (ap (λ p. p.1) h)
with_error-eq-ok f (err e, s) h = cc (ap (λ p. p.0) h)

module _ (codec : OauthCodec) (drawn : Drawn) (client_id user_id scope : Str) where
  -- New tokens leave a key alone that is none of theirs.
  pub issue-Keeps :
      (j : Str)
      → str_eq (access_key (codec.hash_token drawn.access_plaintext)) j ≡ false
      → str_eq (refresh_key (codec.hash_token drawn.refresh_plaintext)) j ≡ false
      → str_eq (refresh_user_index_key user_id) j ≡ false
      → Keeps j (issue codec drawn client_id user_id scope)
  unfolding issue save_access_token save_refresh_token set_ttl
  issue-Keeps j access refresh index =
      let a = new_access codec drawn client_id user_id scope in
      let r = new_refresh codec drawn client_id user_id scope in
      bind-Keeps j (map_err (λ e. server_error) (save_access_token codec drawn.saved_at a)) _
        (bind-Keeps j (write_json_hash codec.access (access_key a.token_hash) a) _
          (write_json_hash-Keeps codec.access (access_key a.token_hash) a j access) (λ u m. refl))
        λ u.
          bind-Keeps j (map_err (λ e. server_error) (save_refresh_token codec r)) _
            (bind-Keeps j (write_json_hash codec.refresh (refresh_key r.token_hash) r) _
              (write_json_hash-Keeps codec.refresh (refresh_key r.token_hash) r j refresh)
              (λ v.
                set_add-Keeps oauth_error (refresh_user_index_key user_id) r.token_hash j index))
            (λ v m. refl)

module _ (x y : Str) where
  access-code : str_eq (access_key x) (code_key y) ≡ false
  unfolding access_key code_key str_eq
  access-code = refl

  refresh-code : str_eq (refresh_key x) (code_key y) ≡ false
  unfolding refresh_key code_key str_eq
  refresh-code = refl

  index-code : str_eq (refresh_user_index_key x) (code_key y) ≡ false
  unfolding refresh_user_index_key code_key str_eq
  index-code = refl

  pub access-refresh : str_eq (access_key x) (refresh_key y) ≡ false
  unfolding access_key refresh_key str_eq
  access-refresh = refl

module _ (codec : OauthCodec) (client : OauthClient) (code uri verifier : Str) (drawn : Drawn) where
  grant_code-Keeps :
      (consumed : AuthorizationCode)
      → Keeps (code_key code) (grant_code codec client uri verifier drawn consumed)
  unfolding grant_code
  grant_code-Keeps consumed =
      bind-Keeps (code_key code) (checked (check_code codec client uri verifier consumed)) _
        (λ m. refl)
        λ u.
          issue-Keeps codec drawn client.client_id consumed.user_id consumed.scope (code_key code)
            (access-code (codec.hash_token drawn.access_plaintext) code)
            (refresh-code (codec.hash_token drawn.refresh_plaintext) code)
            (index-code consumed.user_id code)

  granted_code :
      (found : Option AuthorizationCode) (response : TokenResponse) (t n : MemStore)
      → ((c : AuthorizationCode) → found ≡ some c → IsSpentCode codec code t)
      → (require_some code_gone found >>= grant_code codec client uri verifier drawn) t
        ≡ (ok response, n)
      → IsSpentCode codec code n
  granted_code none response t n spent given = cc (ap (λ r. r.0) given)
  granted_code (some c) response t n spent given =
      let at_use = spent c refl in
      record {
        left = at_use.left;
        there =
            Reads-moved codec.code (code_key code) at_use.left t n
              (ap (λ r. lookup (code_key code) r.1) (sym given) ∙ grant_code-Keeps c t)
              at_use.there;
        used = at_use.used;
      }

  exchange_code-IsSpentCode :
      (response : TokenResponse) (m n : MemStore)
      → IsJson codec.code
      → exchange_code codec client code uri verifier drawn m ≡ (ok response, n)
      → IsSpentCode codec code n
  unfolding exchange_code
  exchange_code-IsSpentCode response m n laws given =
      let consume = consume_authorization_code codec drawn.used_at code in
      bind-eq-ok (IsSpentCode codec code n) (map_err (λ e. server_error) consume) _ m given
        λ found t ran rest.
          granted_code found response t n
            (λ c some_c.
              consume_authorization_code-IsSpentCode codec drawn.used_at code c m t laws
                (with_error-eq-ok (λ e. server_error) (consume m) ran ∙ ap (λ o. (ok o, t)) some_c))
            rest

handled-IsSpentCode :
    (codec : OauthCodec) (client : OauthClient) (form : TokenForm) (drawn : Drawn) (code : Str)
    (given_code uri verifier : Option Str) (response : TokenResponse) (m n : MemStore)
    → IsJson codec.code
    → given_code ≡ some code
    → handle_authorization_code_grant codec client
        (record form { code = given_code; redirect_uri = uri; code_verifier = verifier })
        drawn
        m
      ≡ (ok response, n)
    → IsSpentCode codec code n
unfolding handle_authorization_code_grant
handled-IsSpentCode codec client form drawn code none uri verifier response m n laws e given = cc e
handled-IsSpentCode codec client form drawn code (some c) none verifier response m n laws e given =
    cc (ap (λ r. r.0) given)
handled-IsSpentCode codec client form drawn code (some c) (some u) none response m n laws e given =
    cc (ap (λ r. r.0) given)
handled-IsSpentCode codec client form drawn code (some c) (some u) (some v) response m n laws e
      given =
    let same : c ≡ code = cc e in
    subst (λ x. IsSpentCode codec x n) same
      (exchange_code-IsSpentCode codec client c u v drawn response m n laws given)

-- The code of a request that got tokens is good for no other request, of whatever client: the answer is
-- that the code is gone, and the store stays as it is.
pub handle_authorization_code_grant-replayed :
    (codec : OauthCodec) (client other : OauthClient) (form again : TokenForm) (drawn later : Drawn)
    (code uri verifier : Str) (response : TokenResponse) (m after_it : MemStore)
    → IsJson codec.code
    → form.code ≡ some code
    → handle_authorization_code_grant codec client form drawn m ≡ (ok response, after_it)
    → again.code ≡ some code
    → again.redirect_uri ≡ some uri
    → again.code_verifier ≡ some verifier
    → handle_authorization_code_grant codec other again later after_it ≡ (err code_gone, after_it)
unfolding handle_authorization_code_grant exchange_code
handle_authorization_code_grant-replayed codec client other form again drawn later code uri verifier
      response m after_it laws given_code given same same_uri same_verifier =
    let spent =
      handled-IsSpentCode codec client form drawn code form.code form.redirect_uri
        form.code_verifier response m after_it laws given_code given in
    rw
      (
        same,
        same_uri,
        same_verifier,
        consume_authorization_code-spent codec later.used_at code after_it spent,
      )
      refl
