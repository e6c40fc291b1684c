-- ===== src/Credential.antt =====
-- crates/wm-host/src/api.rs: whom a request comes from, by its bearer token or its session cookie, and
-- the session gate of crates/wm-host/src/mcp_oauth.rs. A header is `none` where it is no text of
-- visible ASCII.
pub mod SignOut
mod Tests
use wiremirage.Prelude.Text.{Str, codes, strip_prefix}
use wiremirage.Prelude.Blank.{trim}
use wiremirage.Prelude.Split.{split}
use wiremirage.Prelude.{
  ℕ, Bool, true, false, Option, none, some, List, [], ◌∷◌, ◌==◌, if◌then◌else◌, Result, ok, err,
}
use wiremirage.Store.{MemStore}
use wiremirage.Store.Action.{Action, ◌>>=◌, return, fail, checked, require_some, map_err, attempt}
use wiremirage.Auth.{AuthError, AuthContext, AuthCodec, CredentialKind, session}
use wiremirage.Auth.Users.{get_user_by_id}
use wiremirage.Auth.Authenticate.{authenticate, context}
use wiremirage.Session.{Session, SessionStore, SessionCodec, touch}

pub data Refusal : Type 0 where
  bad_header bad_scheme invalid_token invalid_session deleted_user session_revoked no_credential :
      Refusal

pub data ApiError : Type 0 where
  unauthorized : Refusal → ApiError
  internal : AuthError → ApiError

pub record Parts : Type 0 where
  pub authorization : Option (Option Str)
  pub cookies : List (Option Str)

unfoldable pub first_value : List Str → Option Str
first_value [] = none
first_value (pair ∷ pairs) = elim (strip_prefix (codes "wm_session=") (trim pair)) [
  | some value ↦ some value
  | none ↦ first_value pairs
]

unfoldable pub first_cookie : List (Option Str) → Option Str
first_cookie [] = none
first_cookie (none ∷ headers) = first_cookie headers
first_cookie (some raw ∷ headers) = elim (first_value (split b';' raw)) [
  | some value ↦ some value
  | none ↦ first_cookie headers
]

unfoldable pub extract_session_cookie : Parts → Option Str
extract_session_cookie parts = first_cookie parts.cookies

-- the token of a header `Bearer …`
unfoldable pub bearer_token : Option Str → Result Refusal Str
bearer_token none = err bad_header
bearer_token (some raw) = elim (strip_prefix (codes "Bearer ") raw) [
  | none ↦ err bad_scheme
  | some token ↦ ok (trim token)
]

-- The times of a request: of the check, of the note of the use, and of the slide of the session.
module _ (codec : AuthCodec) (cookies : SessionCodec) (now later : ℕ) where
  unfoldable pub bearer_context : Option Str → Action ApiError AuthContext
  bearer_context header = do
    token ← map_err unauthorized (checked (bearer_token header))
    found ← map_err internal (authenticate codec now later token)
    require_some (unauthorized invalid_token) found

  unfoldable pub session_context : SessionStore → Str → Action ApiError AuthContext
  session_context sessions cookie = do
    seen ← map_err (λ e. unauthorized invalid_session) (touch cookies sessions cookie now later)
    user ← map_err (λ e. unauthorized deleted_user) (get_user_by_id codec seen.user_id)
    if seen.epoch == user.session_epoch
        then return (context user CredentialKind.session seen.id)
        else fail (unauthorized session_revoked)

  unfoldable pub cookie_context : Option SessionStore → Option Str → Action ApiError AuthContext
  cookie_context none cookie = fail (unauthorized no_credential)
  cookie_context (some sessions) none = fail (unauthorized no_credential)
  cookie_context (some sessions) (some cookie) = session_context sessions cookie

  unfoldable pub header_context :
      Option SessionStore → Parts → Option (Option Str) → Action ApiError AuthContext
  header_context sessions parts (some header) = bearer_context header
  header_context sessions parts none = cookie_context sessions (extract_session_cookie parts)

  unfoldable pub from_request_parts : Option SessionStore → Parts → Action ApiError AuthContext
  from_request_parts sessions parts = header_context sessions parts parts.authorization

  -- the user that a browser grants an OAuth authorization for
  unfoldable pub granting_user : SessionStore → Str → Action ApiError Str
  granting_user sessions cookie = do
    seen ← map_err (λ e. unauthorized invalid_session) (touch cookies sessions cookie now later)
    user ← map_err (λ e. unauthorized deleted_user) (get_user_by_id codec seen.user_id)
    if seen.epoch == user.session_epoch
        then return seen.user_id
        else fail (unauthorized session_revoked)

  unfoldable pub resolve_session_user : Option SessionStore → Parts → Action ApiError (Option Str)
  resolve_session_user none parts = return none
  resolve_session_user (some sessions) parts = elim (extract_session_cookie parts) [
    | none ↦ return none
    | some cookie ↦ attempt (granting_user sessions cookie)
  ]
