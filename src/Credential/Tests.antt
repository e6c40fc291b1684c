-- ===== src/Credential/Tests.antt =====
-- Runs of the check of credentials on concrete requests, and an instance of its theorem.
use wiremirage.Prelude.Text.{Str, codes, strip_prefix}
use wiremirage.Prelude.Assoc.{Assoc}
use wiremirage.Prelude.Decimal.{print}
use wiremirage.Prelude.Split.{split_once}
use wiremirage.Prelude.{◌+◌, none, some, [], ◌∷◌, ok, err, ◌≡◌, refl, arith}
use wiremirage.Store.{MemStore}
use wiremirage.Auth.{CredentialKind}
use wiremirage.Auth.Run.{authority}
use wiremirage.Auth.Sample.{plain as hashing, ann_id, ann, token_id, with_token}
use wiremirage.Auth.Users.{bump_session_epoch}
use wiremirage.Auth.Users.Epoch.{IsStored}
use wiremirage.Auth.Authenticate.{context}
use wiremirage.Session.{
  Session, session_key, drop_session, sign_cookie, verify_signature, write, read, create, unexpired,
  load, validate, slide, touch,
}
use wiremirage.Session.Sample.{plain as signing, sessions, token, cookie, logged_in}
use wiremirage.Credential.{
  Parts, Refusal, unauthorized, bad_scheme, no_credential, first_value, first_cookie,
  extract_session_cookie, bearer_token, bearer_context, session_context, cookie_context,
  header_context, from_request_parts, granting_user, resolve_session_user,
}
use wiremirage.Credential.SignOut.{bump_session_epoch-refused}

abbrev parts : Parts
parts = record {
  authorization = none;
  cookies = none ∷ some (codes "theme=dark; wm_session=abc.secret:abc") ∷ [];
}

abbrev store : MemStore
store = logged_in ann_id with_token

abbrev session : Session
session = record {
  id = codes "s";
  user_id = ann_id;
  provider = codes "local";
  created_at = 100;
  last_seen_at = 100;
  expires_at = 160;
  ip_first_seen = [];
  user_agent = [];
  epoch = 0;
}

unfoldable request : Unit {0}
unfolding authority strip_prefix session_key drop_session sign_cookie verify_signature write read
    create unexpired load validate slide touch first_value first_cookie extract_session_cookie
    bearer_token bearer_context session_context cookie_context header_context from_request_parts
    granting_user resolve_session_user
request = tt

credential_tests :
    ((from_request_parts hashing signing 150 150 (some sessions) parts store).0
      ≡ ok (context ann CredentialKind.session (codes "s")))
    × ((from_request_parts hashing signing 150 150 none parts store).0
        ≡ err (unauthorized no_credential))
    × ((from_request_parts hashing signing 240 240 none
          (record parts { authorization = some (some (codes "Bearer wmt_abc")) })
          store).0
        ≡ ok (context ann CredentialKind.token token_id))
    × ((from_request_parts hashing signing 240 240 none
          (record parts { authorization = some (some (codes "Basic abc")) })
          store).0
        ≡ err (unauthorized bad_scheme))
    × ((resolve_session_user hashing signing 150 150 (some sessions) parts store).0
        ≡ ok (some ann_id))
unfolding request
credential_tests = (refl, refl, refl, refl, refl)

abbrev ann_fields : Assoc Str
ann_fields =
    (codes "session_epoch", codes "0")
    ∷ (codes "created_at", print 100)
    ∷ (codes "is_admin", codes "1")
    ∷ (codes "primary_email", codes "ann@example.com")
    ∷ (codes "id", ann_id)
    ∷ []

ann-IsStored : IsStored hashing ann_id store ann_fields ann
unfolding request
ann-IsStored = record { holds = refl; decoded = refl; epoch = refl }

at_hand :
    (extract_session_cookie parts ≡ some cookie)
    × (split_once b'.' cookie ≡ some (token, codes "secret:abc"))
    × (read signing sessions token store ≡ (ok session, store))
unfolding request
at_hand = (refl, refl, refl)

bump_session_epoch-refused_example :
    (after : MemStore) × (bump_session_epoch hashing ann_id store ≡ (ok (0 + 1), after))
    × (reason : Refusal) × ((from_request_parts hashing signing 150 150
          (some sessions)
          parts
          after).0
        ≡ err (unauthorized reason))
    × ((resolve_session_user hashing signing 150 150 (some sessions) parts after).0 ≡ ok none)
bump_session_epoch-refused_example =
    bump_session_epoch-refused hashing signing sessions 150 150 parts cookie token
      (codes "secret:abc") ann_id session ann store ann_fields refl at_hand.0 at_hand.1 at_hand.2
      ann-IsStored refl refl (omega arith)
