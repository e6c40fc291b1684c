-- ===== src/Auth/Users.antt =====
-- crates/wm-host/src/auth.rs: the operations on users. The new id and the time of a creation are
-- arguments.
pub mod Epoch
pub mod Created
use wiremirage.Prelude.Text.{Str, codes, str_eq}
use wiremirage.Prelude.Assoc.{Assoc, lookup}
use wiremirage.Prelude.Decimal.{ℤ, pos, negsuc}
use wiremirage.Prelude.{
  ℕ, ◌-◌, ◌^◌, Bool, true, false, not, ◌||◌, ◌&&◌, Option, none, some, is_some, List, [], ◌∷◌, keep,
  length, is_empty, if◌then◌else◌,
}
use wiremirage.Store.Action.{
  ◌>>=◌, ◌>>◌, return, fail, require_some, get, set, set_if_absent, set_add, set_members,
  hash_get_all, hash_set, hash_incr, delete,
}
use wiremirage.Registry.Records.{flag}
use wiremirage.Auth.{
  AuthAction, auth_error, AuthError, not_found, email_taken, User, AuthCodec, normalize_email,
}
use wiremirage.Auth.Stored.{
  user_key, by_email_key, identity_key, all_users, id_of, read_user_by_id, find_user_by_email,
}

-- `bool::eq`
abbrev pub same : Bool → Bool → Bool
same a b = (a && b) || (not a && not b)

-- `next as u64`
unfoldable pub as_u64 : ℤ → ℕ
as_u64 (pos n) = n
as_u64 (negsuc n) = 2 ^ 64 - 1 - n

-- the admin flag of the record, as the role asks for it
unfoldable pub sync_admin : User → Bool → AuthAction User
sync_admin user is_admin = if same user.is_admin is_admin then return user else (do
  hash_set (user_key user.id) (codes "is_admin") (flag is_admin)
  return (record user { is_admin = is_admin }))

module _ (codec : AuthCodec) where
  unfoldable pub write_user_fields : Str → User → AuthAction (Unit {0})
  write_user_fields key user = do
    hash_set key (codes "id") user.id
    hash_set key (codes "primary_email") user.email
    hash_set key (codes "is_admin") (flag user.is_admin)
    hash_set key (codes "created_at") (codec.to_rfc3339 user.created_at)
    hash_set key (codes "session_epoch") (codes "0")

  -- The record, then the claim of the email, then the entry in the set of users.
  unfoldable pub store_user : User → AuthAction User
  store_user user = do
    write_user_fields (user_key user.id) user
    claimed ← set_if_absent (by_email_key user.email) user.id
    if claimed then (do set_add all_users user.id; return user) else fail (email_taken user.email)

  abbrev pub new_user : Str → ℕ → Str → Bool → User
  new_user id now email is_admin = record {
    id = id;
    email = email;
    is_admin = is_admin;
    created_at = now;
    session_epoch = 0;
  }

  unfoldable pub write_new_user : Str → ℕ → Str → Bool → AuthAction User
  write_new_user id now email is_admin = do
    found ← find_user_by_email codec email
    if is_some found then fail (email_taken email) else store_user (new_user id now email is_admin)

  unfoldable pub any_user_exists : AuthAction Bool
  any_user_exists = do ids ← set_members all_users; return (not (is_empty ids))

  unfoldable pub create_user : Str → ℕ → Str → Bool → AuthAction User
  create_user id now email is_admin = write_new_user id now (normalize_email email) is_admin

  unfoldable pub get_user_by_id : Str → AuthAction User
  get_user_by_id id = do user ← read_user_by_id codec id; require_some not_found user

  unfoldable pub get_user_by_email : Str → AuthAction (Option User)
  get_user_by_email email = find_user_by_email codec (normalize_email email)

  -- the records of the ids, without the missing ones
  unfoldable pub read_users : List Str → AuthAction (List User)
  read_users [] = return []
  read_users (id ∷ ids) = do
    user ← read_user_by_id codec id
    rest ← read_users ids
    elim user [ none ↦ return rest | some u ↦ return (u ∷ rest) ]

  unfoldable pub list_users : AuthAction (List User)
  list_users = do ids ← set_members all_users; read_users ids

  unfoldable pub count_admins : AuthAction ℕ
  count_admins = do users ← list_users; return (length (keep (λ (u : User). u.is_admin) users))

  unfoldable pub upsert_local_user : Str → ℕ → Str → Bool → AuthAction User
  upsert_local_user id now email is_admin = do
    let address = normalize_email email
    found ← find_user_by_email codec address
    user ← elim found [
      | some u ↦ sync_admin u is_admin
      | none ↦ write_new_user id now address is_admin
    ]
    set (identity_key (codes "local") address) user.id
    return user

  -- the real email of a record from before it
  unfoldable pub backfill_email : Str → User → Option User → AuthAction User
  backfill_email email user (some other) = return user
  backfill_email email user none = do
    hash_set (user_key user.id) (codes "primary_email") email
    set (by_email_key email) user.id
    return (record user { email = email })

  unfoldable pub refresh_email : Str → User → Assoc Str → AuthAction User
  refresh_email email user fields =
      if is_some (lookup (codes "primary_email") fields)
      then (do set (by_email_key user.email) user.id; return user)
      else (do holder ← find_user_by_email codec email; backfill_email email user holder)

  unfoldable pub returning_user : Str → Bool → User → AuthAction User
  returning_user email is_admin user = do
    synced ← sync_admin user is_admin
    fields ← hash_get_all (user_key synced.id)
    refresh_email email synced fields

  -- the user that the identity leads to; a stale entry is dropped
  unfoldable pub linked_user : Str → Str → Bool → Option Str → AuthAction (Option User)
  linked_user identity email is_admin none = return none
  linked_user identity email is_admin (some bytes) = do
    id ← id_of (codes "identity index value") bytes
    user ← read_user_by_id codec id
    elim user [
      | none ↦ do delete identity; return none
      | some u ↦ do known ← returning_user email is_admin u; return (some known)
    ]

  -- an identity that is seen for the first time
  unfoldable pub link_user : Str → ℕ → Str → Str → Bool → AuthAction User
  link_user id now identity email is_admin = do
    holder ← find_user_by_email codec email
    elim holder [
      | some user ↦ do set identity user.id; sync_admin user is_admin
      | none ↦ do user ← write_new_user id now email is_admin; set identity user.id; return user
    ]

  unfoldable pub upsert_oauth_user : Str → ℕ → Str → Str → Str → Bool → AuthAction User
  upsert_oauth_user id now provider subject email is_admin = do
    let identity = identity_key provider subject
    let address = normalize_email email
    entry ← get identity
    linked ← linked_user identity address is_admin entry
    elim linked [ some user ↦ return user | none ↦ link_user id now identity address is_admin ]

  unfoldable pub set_user_admin : Str → Bool → AuthAction User
  set_user_admin id is_admin = do
    found ← read_user_by_id codec id
    user ← require_some not_found found
    hash_set (user_key user.id) (codes "is_admin") (flag is_admin)
    return (record user { is_admin = is_admin })

  unfoldable pub bump_session_epoch : Str → AuthAction ℕ
  bump_session_epoch id = do
    found ← read_user_by_id codec id
    user ← require_some not_found found
    next ← hash_incr (user_key id) (codes "session_epoch") (pos 1)
    return (as_u64 next)
