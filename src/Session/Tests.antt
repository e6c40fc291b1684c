-- ===== src/Session/Tests.antt =====
-- Runs of crates/wm-host/src/session.rs, and instances of its theorems.
use wiremirage.Prelude.Text.{Str, codes, str_eq}
use wiremirage.Prelude.Assoc.{lookup}
use wiremirage.Prelude.Split.{split_once}
use wiremirage.Prelude.{some, [], false, ok, err, ◌≡◌, refl, arith}
use wiremirage.Store.{MemStore}
use wiremirage.Auth.Run.{authority}
use wiremirage.Session.{
  Session, SessionError, not_found, weak_secret, signature_mismatch, invalid_cookie, session_key,
  drop_session, delete_by_cookie, sign_cookie, verify_signature, write, read, create, unexpired,
  load, validate, slide, touch,
}
use wiremirage.Session
use wiremirage.Session.Cookies.{IsVouched, create-validate, validate-IsVouched}
use wiremirage.Session.Logout.{delete_by_cookie-refused}
use wiremirage.Session.Sample.{plain, plain-IsJson, sessions, token, cookie, logged_in}

abbrev ann : Str
ann = codes "ann"

abbrev session : Session
session = record {
  id = codes "s";
  user_id = ann;
  provider = codes "local";
  created_at = 100;
  last_seen_at = 100;
  expires_at = 160;
  ip_first_seen = [];
  user_agent = [];
  epoch = 0;
}

unfoldable browsing : Unit {0}
unfolding authority Session.new session_key drop_session delete_by_cookie sign_cookie
    verify_signature write read create unexpired load validate slide touch
browsing = tt

session_tests :
    ((validate plain sessions cookie 160 (logged_in ann [])).0 ≡ ok session)
    × (validate plain sessions cookie 161 (logged_in ann []) ≡ (err not_found, []))
    × ((validate plain sessions (codes "abc.secret:abd") 100 (logged_in ann [])).0
        ≡ err signature_mismatch)
    × ((validate plain sessions (codes "abc") 100 (logged_in ann [])).0 ≡ err invalid_cookie)
    × ((touch plain sessions cookie 160 170 (logged_in ann [])).0
        ≡ ok (record session { last_seen_at = 170; expires_at = 230 }))
    × (Session.new (codes "short") ≡ err weak_secret)
unfolding browsing
session_tests = (refl, refl, refl, refl, refl, refl)

create-validate_example :
    (s : Session) × (c : Str) × (after : MemStore) × (create plain sessions token
        (codes "s")
        100
        ann
        (codes "local")
        []
        []
        0
        []
      ≡ (ok (s, c), after))
    × (validate plain sessions c 160 after ≡ (ok s, after))
    × (s.user_id ≡ ann)
    × (s.epoch ≡ 0)
create-validate_example =
    create-validate plain sessions token (codes "s") 100 ann (codes "local") [] [] 0 160 160 []
      plain-IsJson (omega arith) refl (omega arith)

accepted : validate plain sessions cookie 160 (logged_in ann []) ≡ (ok session, logged_in ann [])
unfolding browsing
accepted = refl

validate-IsVouched_example :
    IsVouched plain sessions cookie 160 (logged_in ann []) session
    × (logged_in ann [] ≡ logged_in ann [])
validate-IsVouched_example =
    validate-IsVouched plain sessions cookie 160 session (logged_in ann []) (logged_in ann [])
      accepted

parts : split_once b'.' cookie ≡ some (token, codes "secret:abc")
unfolding split_once
parts = refl

apart : str_eq (session_key token) (codes "user:all") ≡ false
unfolding session_key str_eq
apart = refl

delete_by_cookie-refused_example :
    (after : MemStore) × (delete_by_cookie cookie (logged_in ann []) ≡ (ok tt, after))
    × (lookup (codes "user:all") after ≡ lookup (codes "user:all") (logged_in ann []))
    × (e : SessionError) × (validate plain sessions cookie 120 after ≡ (err e, after))
    × (touch plain sessions cookie 120 121 after ≡ (err e, after))
delete_by_cookie-refused_example =
    delete_by_cookie-refused plain sessions cookie token (codes "secret:abc") (logged_in ann [])
      cookie (codes "secret:abc") 120 121 (codes "user:all") parts parts apart
