-- ===== src/Auth/Tests.antt =====
-- Runs of crates/wm-host/src/auth.rs on a small store, and instances of its theorems.
use wiremirage.Prelude.Text.{Str, codes}
use wiremirage.Prelude.Assoc.{Assoc, lookup}
use wiremirage.Prelude.Decimal.{print}
use wiremirage.Prelude.{false, none, some, [], ◌∷◌, ok, err, ◌≡◌, refl, arith}
use wiremirage.Store.{MemStore}
use wiremirage.Store.Memory
use wiremirage.Registry.Stored.Keys.{IsUlid}
use wiremirage.Auth.{malformed, email_taken, not_found, User, Token, default_scopes}
use wiremirage.Auth.Run.{authority}
use wiremirage.Prelude.Utf8.{is_utf8, utf8_from, following}
use wiremirage.Auth.Users.{create_user}
use wiremirage.Auth.Tokens.{new_token}
use wiremirage.Auth.Laws.{IsNewUser, IsNewToken}
use wiremirage.Auth.Users.Created.{create_user-get_user_by_email}
use wiremirage.Auth.Tokens.Valid.{create_token-authenticate}
use wiremirage.Auth.Sample.{
  plain-IsAuthCodec, plain, ann_id, token_id, secret, ann, with_ann, with_token,
}
use wiremirage.Auth.Stored.{user_key, read_user_by_id}
use wiremirage.Auth.Users.{create_user, get_user_by_email, bump_session_epoch}
use wiremirage.Auth.Tokens.{
  create_token, get_token_by_name, rename_token, revoke_token_by_name, delete_user,
}
use wiremirage.Auth.Tokens.Leftovers.{delete_user-malformed}
use wiremirage.Auth.Tokens.Revoked.{revoke_token_by_name-unknown}
use wiremirage.Auth.Authenticate.{authenticate, context}
use wiremirage.Auth.{CredentialKind}

ann-IsUlid : IsUlid ann_id
ann-IsUlid = record { full = refl; letters = refl }

user_tests :
    ((get_user_by_email plain (codes "ANN@example.com") with_ann).0 ≡ ok (some ann))
    × ((create_user plain token_id 300 (codes "ann@example.com") false with_ann).0
        ≡ err (email_taken (codes "ann@example.com")))
    × ((bump_session_epoch plain ann_id with_ann).0 ≡ ok 1)
    × ((delete_user plain ann_id with_token).0 ≡ ok tt)
unfolding authority
user_tests = (refl, refl, refl, refl)

authenticate_tests :
    ((authenticate plain 250 250 secret with_token).0
      ≡ ok (some (context ann CredentialKind.token token_id)))
    × ((authenticate plain 251 251 secret with_token).0 ≡ ok none)
    × ((rename_token plain ann_id (codes "ci") (codes "ci") with_ann).0 ≡ err not_found)
unfolding authority
authenticate_tests = (refl, refl, refl)

abbrev ann_fields : Assoc Str
ann_fields =
    (codes "session_epoch", codes "0")
    ∷ (codes "created_at", print 100)
    ∷ (codes "is_admin", codes "1")
    ∷ (codes "primary_email", codes "ann@example.com")
    ∷ (codes "id", ann_id)
    ∷ []

ann_read :
    (read_user_by_id plain ann_id with_token ≡ (ok (some ann), with_token))
    × (Memory.hash_get_all with_token (user_key ann_id) ≡ ok ann_fields)
    × (lookup (codes "session_epoch") ann_fields ≡ some (codes "0"))
    × ((delete_user plain ann_id with_token).0 ≡ ok tt)
unfolding authority
ann_read = (refl, refl, refl, refl)

delete_user-malformed_example :
    read_user_by_id plain ann_id (delete_user plain ann_id with_token).1
    ≡ (err (malformed (codes "name")), (delete_user plain ann_id with_token).1)
delete_user-malformed_example =
    delete_user-malformed plain ann_id ann with_token ann_fields ann-IsUlid ann_read.0 refl
      ann_read.1 ann_read.2 ann_read.3

abbrev ci : Token
ci = record {
  id = token_id;
  name = codes "ci";
  owner_id = ann_id;
  token_hash = codes "digest of wmt_abc";
  created_at = 200;
  last_used_at = none;
  expires_at = some 250;
  scopes = default_scopes;
}

ci_read : get_token_by_name plain ann_id (codes "ci") with_token ≡ (ok (some ci), with_token)
unfolding authority
ci_read = refl

revoke_token_by_name-unknown_example :
    authenticate plain 210 210 secret (revoke_token_by_name plain ann_id (codes "ci") with_token).1
    ≡ (ok none, (revoke_token_by_name plain ann_id (codes "ci") with_token).1)
unfolding authority
revoke_token_by_name-unknown_example =
    revoke_token_by_name-unknown plain ann_id (codes "ci") ci 210 210 secret with_token
      (record { full = refl; letters = refl }) ci_read refl refl

abbrev bob : User
bob = record {
  id = token_id;
  email = codes "bob@x";
  is_admin = false;
  created_at = 300;
  session_epoch = 0;
}

bob-IsNewUser : IsNewUser bob
unfolding is_utf8 utf8_from following
bob-IsNewUser = record { id_text = refl; email_text = refl; created = omega arith; epoch = refl }

create_user-get_user_by_email_example :
    (after : MemStore) × (create_user plain token_id 300 (codes " Bob@X") false with_ann
      ≡ (ok bob, after))
    × (read_user_by_id plain token_id after ≡ (ok (some bob), after))
    × (get_user_by_email plain (codes "BOB@x") after ≡ (ok (some bob), after))
unfolding authority
create_user-get_user_by_email_example =
    create_user-get_user_by_email plain token_id 300 (codes " Bob@X") (codes "BOB@x") false
      (ann_id ∷ []) with_ann plain-IsAuthCodec (record { full = refl; letters = refl })
      bob-IsNewUser refl refl refl refl refl

abbrev deploy : Token
deploy = new_token plain token_id 200 ann_id (codes "ci") secret (some 250)

deploy-IsNewToken : IsNewToken deploy
unfolding is_utf8 utf8_from following
deploy-IsNewToken = record {
  id_text = refl;
  name_text = refl;
  owner_text = refl;
  digest_text = refl;
  created = omega arith;
  expiry = omega arith;
  unused = refl;
  scopes = refl;
}

create_token-authenticate_example :
    (after : MemStore) × (create_token plain token_id 200 ann_id
        (codes "ci")
        secret
        (some 50)
        with_ann
      ≡ (ok (deploy, secret), after))
    × ((authenticate plain 250 260 secret after).0
        ≡ ok (some (context ann CredentialKind.token token_id)))
unfolding authority
create_token-authenticate_example =
    create_token-authenticate plain token_id 200 ann_id (codes "ci") secret (some 250) (some 50) ann
      ann_fields [] with_ann 250 260 plain-IsAuthCodec (record { full = refl; letters = refl })
      deploy-IsNewToken refl (record { holds = refl; decoded = refl; epoch = refl }) refl refl refl
      refl
