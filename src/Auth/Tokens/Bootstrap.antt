-- ===== src/Auth/Tokens/Bootstrap.antt =====
-- crates/wm-host/src/auth.rs: `bootstrap_admin`, which a start of the host calls.
use wiremirage.Prelude.Text.{Str, codes}
use wiremirage.Prelude.Assoc.{lookup}
use wiremirage.Prelude.{
  ℕ, Bool, true, false, Option, none, some, is_some, Result, ok, err, if◌then◌else◌,
}
use wiremirage.Store.Action.{◌>>=◌, ◌>>◌, return, get, set, hash_get_all, hash_set, delete}
use wiremirage.Auth.{
  AuthAction, auth_error, AuthError, email_taken, User, AuthCodec, normalize_email,
}
use wiremirage.Auth.Stored.{
  user_key, by_email_key, by_handle_key, id_of, read_user_by_id, find_user_by_email,
}
use wiremirage.Auth.Users.{write_new_user}
use wiremirage.Auth.Tokens.{write_new_token}

-- An email that another replica has claimed is no error.
abbrev pub unless_taken : {A : Type 0} → Result AuthError A → Result AuthError (Option A)
unless_taken (ok a) = ok (some a)
unless_taken (err (email_taken email)) = ok none
unless_taken (err e) = err e

abbrev pub if_claimed : {A : Type 0} → AuthAction A → AuthAction (Option A)
if_claimed m store = let (result, rest) = m store in (unless_taken result, rest)

-- the record from before emails, which gets the email if it has none
unfoldable pub adopt_record : Str → Option User → AuthAction Bool
adopt_record email none = return false
adopt_record email (some user) = do
  fields ← hash_get_all (user_key user.id)
  if is_some (lookup (codes "primary_email") fields) then return false else (do
    hash_set (user_key user.id) (codes "primary_email") email
    set (by_email_key email) user.id
    delete (by_handle_key (codes "bootstrap"))
    return true)

module _ (codec : AuthCodec) where
  unfoldable pub adopt_legacy : Str → Option Str → AuthAction Bool
  adopt_legacy email none = return false
  adopt_legacy email (some bytes) = do
    id ← id_of (codes "user:by-name value") bytes
    user ← read_user_by_id codec id
    adopt_record email user

  -- `user_id`, `token_id` and the two times are what a creation draws.
  unfoldable pub make_admin : Str × ℕ → Str × ℕ → Str → Str → AuthAction Bool
  make_admin (user_id, user_time) (token_id, token_time) email plaintext = do
    made ← if_claimed (write_new_user codec user_id user_time email true)
    elim made [
      | none ↦ return false
      | some user ↦ do
        token ← write_new_token codec token_id token_time user.id (codes "bootstrap") plaintext none
        return true
    ]

  unfoldable pub bootstrap_admin : Str × ℕ → Str × ℕ → Str → Str → AuthAction Bool
  bootstrap_admin new_user new_token address plaintext = do
    let email = normalize_email address
    found ← find_user_by_email codec email
    if is_some found then return false else (do
      entry ← get (by_handle_key (codes "bootstrap"))
      adopted ← adopt_legacy email entry
      if adopted then return false else make_admin new_user new_token email plaintext)
