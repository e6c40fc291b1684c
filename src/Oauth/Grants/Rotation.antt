-- ===== src/Oauth/Grants/Rotation.antt =====
-- crates/wm-host/src/mcp_oauth.rs: a refresh token that was exchanged for another pair is gone.
use wiremirage.Prelude.Text.{Str, codes, str_eq, starts_with, prefix_outside}
use wiremirage.Prelude.Assoc.{lookup}
use wiremirage.Prelude.{not, false, Option, none, some, ok, err, ◌≡◌, refl, ap, sym, ◌∙◌, subst}
use wiremirage.Store.{MemStore}
use wiremirage.Store.Action.{◌>>=◌, require_some, map_err}
use wiremirage.Store.Reads.{bind-eq-ok}
use wiremirage.Store.Keeps.{Keeps, if-Keeps}
use wiremirage.Oauth.{OauthCodec, OauthClient, RefreshToken, TokenForm, TokenResponse, server_error}
use wiremirage.Oauth.Records.{refresh_key, refresh_user_index_key, consume_refresh_token}
use wiremirage.Oauth.Records.Written.{IsJson, Reads-moved}
use wiremirage.Oauth.Records.Spent.{
  IsSpentRefresh, consume_refresh_token-IsSpentRefresh, consume_refresh_token-spent,
}
use wiremirage.Oauth.Grants.{
  Drawn, grant_refresh, refresh_gone, exchange_refresh, handle_refresh_token_grant,
}
use wiremirage.Oauth.Grants.Replay.{with_error-eq-ok, issue-Keeps, access-refresh}

-- A digest is not one of the texts that the index of a user's tokens stands under: it is hexadecimal.
abbrev pub IsDigest : Str → Type 0
IsDigest digest = starts_with (codes "by-user:") digest ≡ false

refresh-refresh : (x y : Str) → str_eq x y ≡ false → str_eq (refresh_key x) (refresh_key y) ≡ false
unfolding refresh_key str_eq
refresh-refresh x y other = other

index-refresh :
    (user_id digest : Str)
    → IsDigest digest
    → str_eq (refresh_user_index_key user_id) (refresh_key digest) ≡ false
unfolding refresh_user_index_key refresh_key str_eq
index-refresh user_id digest hex = prefix_outside (codes "by-user:") user_id digest hex

module _ (codec : OauthCodec) (client : OauthClient) (digest : Str) (drawn : Drawn) where
  grant_refresh-Keeps :
      IsDigest digest
      → str_eq (codec.hash_token drawn.refresh_plaintext) digest ≡ false
      → (consumed : RefreshToken)
      → Keeps (refresh_key digest) (grant_refresh codec client drawn consumed)
  unfolding grant_refresh
  grant_refresh-Keeps hex other consumed =
      if-Keeps (refresh_key digest) (not (str_eq consumed.client_id client.client_id)) _ _
        (λ m. refl)
        (issue-Keeps codec drawn consumed.client_id consumed.user_id consumed.scope
          (refresh_key digest) (access-refresh (codec.hash_token drawn.access_plaintext) digest)
          (refresh-refresh (codec.hash_token drawn.refresh_plaintext) digest other)
          (index-refresh consumed.user_id digest hex))

  granted_refresh :
      (found : Option RefreshToken) (response : TokenResponse) (t n : MemStore)
      → IsDigest digest
      → str_eq (codec.hash_token drawn.refresh_plaintext) digest ≡ false
      → ((c : RefreshToken) → found ≡ some c → IsSpentRefresh codec digest t)
      → (require_some refresh_gone found >>= grant_refresh codec client drawn) t ≡ (ok response, n)
      → IsSpentRefresh codec digest n
  granted_refresh none response t n hex other spent given = cc (ap (λ r. r.0) given)
  granted_refresh (some c) response t n hex other spent given =
      let at_use = spent c refl in
      record {
        left = at_use.left;
        there =
            Reads-moved codec.refresh (refresh_key digest) at_use.left t n
              (ap (λ r. lookup (refresh_key digest) r.1) (sym given)
                ∙ grant_refresh-Keeps hex other c t)
              at_use.there;
        used = at_use.used;
      }

exchange_refresh-IsSpentRefresh :
    (codec : OauthCodec) (client : OauthClient) (plaintext : Str) (drawn : Drawn)
    (response : TokenResponse) (m n : MemStore)
    → IsJson codec.refresh
    → IsDigest (codec.hash_token plaintext)
    → str_eq (codec.hash_token drawn.refresh_plaintext) (codec.hash_token plaintext) ≡ false
    → exchange_refresh codec client plaintext drawn m ≡ (ok response, n)
    → IsSpentRefresh codec (codec.hash_token plaintext) n
unfolding exchange_refresh
exchange_refresh-IsSpentRefresh codec client plaintext drawn response m n laws hex other given =
    let digest = codec.hash_token plaintext in
    let consume = consume_refresh_token codec drawn.used_at digest in
    bind-eq-ok (IsSpentRefresh codec digest n) (map_err (λ e. server_error) consume) _ m given
      λ found t ran rest.
        granted_refresh codec client digest drawn found response t n hex other
          (λ c some_c.
            consume_refresh_token-IsSpentRefresh codec drawn.used_at digest c m t laws
              (with_error-eq-ok (λ e. server_error) (consume m) ran ∙ ap (λ o. (ok o, t)) some_c))
          rest

handled-IsSpentRefresh :
    (codec : OauthCodec) (client : OauthClient) (form : TokenForm) (drawn : Drawn) (plaintext : Str)
    (given_token : Option Str) (response : TokenResponse) (m n : MemStore)
    → IsJson codec.refresh
    → IsDigest (codec.hash_token plaintext)
    → str_eq (codec.hash_token drawn.refresh_plaintext) (codec.hash_token plaintext) ≡ false
    → given_token ≡ some plaintext
    → handle_refresh_token_grant codec client (record form { refresh_token = given_token }) drawn m
      ≡ (ok response, n)
    → IsSpentRefresh codec (codec.hash_token plaintext) n
unfolding handle_refresh_token_grant
handled-IsSpentRefresh codec client form drawn plaintext none response m n laws hex other e given =
    cc e
handled-IsSpentRefresh codec client form drawn plaintext (some p) response m n laws hex other e
      given =
    let same : p ≡ plaintext = cc e in
    exchange_refresh-IsSpentRefresh codec client plaintext drawn response m n laws hex other
      (subst (λ x. exchange_refresh codec client x drawn m ≡ (ok response, n)) same given)

-- A refresh token that got a new pair of tokens is good for no other request, of whatever client: the
-- answer is that the token is gone, and the store stays as it is. This is so if the new refresh token
-- has another digest than the old one, if the old one's digest does not start with `by-user:`, which no
-- hexadecimal text does, and if the JSON of a refresh token is read as it was written.
pub handle_refresh_token_grant-replayed :
    (codec : OauthCodec) (client other : OauthClient) (form again : TokenForm) (drawn later : Drawn)
    (plaintext : Str) (response : TokenResponse) (m after_it : MemStore)
    → IsJson codec.refresh
    → IsDigest (codec.hash_token plaintext)
    → str_eq (codec.hash_token drawn.refresh_plaintext) (codec.hash_token plaintext) ≡ false
    → form.refresh_token ≡ some plaintext
    → handle_refresh_token_grant codec client form drawn m ≡ (ok response, after_it)
    → again.refresh_token ≡ some plaintext
    → handle_refresh_token_grant codec other again later after_it ≡ (err refresh_gone, after_it)
unfolding handle_refresh_token_grant exchange_refresh
handle_refresh_token_grant-replayed codec client other form again drawn later plaintext response m
      after_it laws hex apart given_token given same =
    let spent =
      handled-IsSpentRefresh codec client form drawn plaintext form.refresh_token response m
        after_it laws hex apart given_token given in
    rw
      (
        same,
        consume_refresh_token-spent codec later.used_at (codec.hash_token plaintext) after_it spent,
      )
      refl
