-- ===== src/Auth/Stored.antt =====
-- crates/wm-host/src/auth.rs: the keys, the reads of the records, and the search of a user by email.
pub mod Keys
pub mod Reads
use wiremirage.Prelude.Text.{Str, codes, str_eq, contains}
use wiremirage.Prelude.Utf8.{from_utf8}
use wiremirage.Prelude.{Option, none, some, List, [], ◌∷◌, ◌++◌, is_empty, if◌then◌else◌}
use wiremirage.Store.Action.{
  ◌>>=◌, ◌>>◌, return, checked, get, set, delete, hash_get_all, set_members,
}
use wiremirage.Auth.{AuthAction, auth_error, AuthError, malformed, User, Token, AuthCodec}
use wiremirage.Auth.Records.{decode_user, decode_token}

unfoldable pub user_key : Str → Str
user_key id = codes "user:" ++ id

unfoldable pub by_email_key : Str → Str
by_email_key email = codes "user:by-email:" ++ email

unfoldable pub by_handle_key : Str → Str
by_handle_key handle = codes "user:by-name:" ++ handle

unfoldable pub identity_key : Str → Str → Str
identity_key provider subject = codes "user:by-identity:" ++ (provider ++ (b':' ∷ subject))

abbrev pub all_users : Str
all_users = codes "user:all"

unfoldable pub token_key : Str → Str
token_key id = codes "token:" ++ id

unfoldable pub by_hash_key : Str → Str
by_hash_key digest = codes "token:by-hash:" ++ digest

unfoldable pub token_name_key : Str → Str → Str
token_name_key owner_id name = codes "token:by-name:" ++ (owner_id ++ (b':' ∷ name))

unfoldable pub token_owner_key : Str → Str
token_owner_key owner_id = codes "token:by-owner:" ++ owner_id

-- the id in an index, and its error if it is no text
abbrev pub id_of : Str → Str → AuthAction Str
id_of index bytes = checked (from_utf8 bytes (malformed index))

-- `user.email == email`
unfoldable pub with_email : Str → Option User → Option User
with_email email none = none
with_email email (some user) = if str_eq user.email email then some user else none

-- a stale entry is dropped
unfoldable pub settle_index : Str → Option User → AuthAction (Option User)
settle_index email (some user) = return (some user)
settle_index email none = do delete (by_email_key email); return none

module _ (codec : AuthCodec) where
  unfoldable pub read_user_by_id : Str → AuthAction (Option User)
  read_user_by_id id = do
    fields ← hash_get_all (user_key id)
    if is_empty fields
        then return none
        else (do user ← checked (decode_user codec fields); return (some user))

  unfoldable pub read_token_by_id : Str → AuthAction (Option Token)
  read_token_by_id id = do
    fields ← hash_get_all (token_key id)
    if is_empty fields
        then return none
        else (do token ← checked (decode_token codec fields); return (some token))

  -- the user that the index has
  unfoldable pub indexed_user : Str → Option Str → AuthAction (Option User)
  indexed_user email none = return none
  indexed_user email (some bytes) = do
    id ← id_of (codes "user:by-email value") bytes
    user ← read_user_by_id id
    settle_index email (with_email email user)

  -- the index entry of a real email
  unfoldable pub heal_index : Str → User → AuthAction (Unit {0})
  heal_index email user =
      if contains b'@' email then set (by_email_key email) user.id else return tt

  unfoldable pub scan_users : Str → List Str → AuthAction (Option User)
  scan_users email [] = return none
  scan_users email (id ∷ ids) = do
    user ← read_user_by_id id
    elim (with_email email user) [
      | some found ↦ do heal_index email found; return (some found)
      | none ↦ scan_users email ids
    ]

  unfoldable pub find_user_by_email : Str → AuthAction (Option User)
  find_user_by_email email = do
    entry ← get (by_email_key email)
    indexed ← indexed_user email entry
    elim indexed [
      | some user ↦ return (some user)
      | none ↦ do ids ← set_members all_users; scan_users email ids
    ]
