-- ===== src/Session.antt =====
-- crates/wm-host/src/session.rs: the sessions of browsers, under the tokens that their signed cookies
-- carry. The random token, the new id and the times are arguments; the signature and the JSON of a
-- session are those of the crates, in the codec.
pub mod Cookies
pub mod Logout
pub mod Sample
mod Tests
use wiremirage.Prelude.Text.{Str, codes, str_eq}
use wiremirage.Prelude.Split.{split_once}
use wiremirage.Prelude.{
  ℕ, ◌*◌, Bool, Option, none, some, ◌∷◌, ◌++◌, length, ltb, if◌then◌else◌, Result, ok, err,
}
use wiremirage.Store.{StoreError}
use wiremirage.Store.Action.{
  StorageError, ◌>>=◌, ◌>>◌, return, fail, require_some, get, set, delete, ignored,
}
use wiremirage.Store.Action

-- `out_of_range` is no error of the code: it is a panic of chrono.
pub data SessionError : Type 0 where
  storage : StoreError → SessionError
  not_found invalid_cookie signature_mismatch weak_secret out_of_range : SessionError
  malformed : Str → SessionError

abbrev pub SessionAction : Type 0 → Type 0
SessionAction A = Action.Action SessionError A

instance abbrev pub session_error : StorageError SessionError
session_error = record { storage = storage }

pub record Session : Type 0 where
  pub id : Str
  pub user_id : Str
  pub provider : Str
  pub created_at : ℕ
  pub last_seen_at : ℕ
  pub expires_at : ℕ
  pub ip_first_seen : Str
  pub user_agent : Str
  pub epoch : ℕ

pub record SessionStore : Type 0 where
  pub secret : Str
  pub ttl_seconds : ℕ

-- Of the crates: the signature of a text under a secret, the JSON of a session, and the time some
-- seconds after another, unless that panics.
pub record SessionCodec : Type 0 where
  pub compute_signature : Str → Str → Str
  pub to_vec : Session → Option Str
  pub from_slice : Str → Option Session
  pub plus_seconds : ℕ → ℕ → Option ℕ

abbrev pub default_session_ttl_seconds : ℕ
default_session_ttl_seconds = 24 * 60 * 60

unfoldable pub new : Str → Result SessionError SessionStore
new secret =
    if ltb (length secret) 32
    then err weak_secret
    else ok (record { secret = secret; ttl_seconds = default_session_ttl_seconds })

unfoldable pub session_key : Str → Str
session_key token = codes "session:" ++ token

unfoldable pub drop_session : Str → SessionAction (Unit {0})
drop_session token = delete (session_key token)

unfoldable pub delete_by_cookie : Str → SessionAction (Unit {0})
delete_by_cookie cookie_value = do
  (token, signature) ← require_some invalid_cookie (split_once b'.' cookie_value)
  drop_session token

module _ (codec : SessionCodec) (sessions : SessionStore) where
  unfoldable pub sign_cookie : Str → Str
  sign_cookie token = token ++ (b'.' ∷ codec.compute_signature sessions.secret token)

  unfoldable pub verify_signature : Str → Str → Bool
  verify_signature token signature =
      str_eq (codec.compute_signature sessions.secret token) signature

  unfoldable pub write : Str → Session → SessionAction (Unit {0})
  write token session = do
    bytes ← require_some (malformed (codes "encode")) (codec.to_vec session)
    set (session_key token) bytes

  unfoldable pub read : Str → SessionAction Session
  read token = do
    found ← get (session_key token)
    bytes ← require_some not_found found
    require_some (malformed (codes "decode")) (codec.from_slice bytes)

  unfoldable pub create : Str → Str → ℕ → Str → Str → Str → Str → ℕ → SessionAction (Session × Str)
  create token id now user_id provider ip_first_seen user_agent epoch = do
    expires_at ← require_some out_of_range (codec.plus_seconds now sessions.ttl_seconds)
    let session : Session = record {
      id = id;
      user_id = user_id;
      provider = provider;
      created_at = now;
      last_seen_at = now;
      expires_at = expires_at;
      ip_first_seen = ip_first_seen;
      user_agent = user_agent;
      epoch = epoch;
    }
    write token session
    return (session, sign_cookie token)

  -- A session that has not expired; an expired one is deleted.
  unfoldable pub unexpired : Str → ℕ → Session → SessionAction Session
  unexpired token now session =
      if ltb session.expires_at now
      then (do ignored (drop_session token); fail not_found)
      else return session

  unfoldable pub load : Str → Str → ℕ → SessionAction Session
  load token signature now =
      if verify_signature token signature
      then (do session ← read token; unexpired token now session)
      else fail signature_mismatch

  unfoldable pub validate : Str → ℕ → SessionAction Session
  validate cookie_value now = do
    (token, signature) ← require_some invalid_cookie (split_once b'.' cookie_value)
    load token signature now

  -- `last_seen_at` and `expires_at` at a later time
  unfoldable pub slide : Str → ℕ → Session → SessionAction Session
  slide token now session = do
    expires_at ← require_some out_of_range (codec.plus_seconds now sessions.ttl_seconds)
    let seen : Session = record session { last_seen_at = now; expires_at = expires_at }
    write token seen
    return seen

  unfoldable pub touch : Str → ℕ → ℕ → SessionAction Session
  touch cookie_value now later = do
    (token, signature) ← require_some invalid_cookie (split_once b'.' cookie_value)
    session ← load token signature now
    slide token later session
