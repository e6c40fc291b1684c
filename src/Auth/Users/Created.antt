-- ===== src/Auth/Users/Created.antt =====
-- crates/wm-host/src/auth.rs: a user that was created is found by id and by email.
use wiremirage.Prelude.Text.{Str, codes, str_eq, str_eq_refl, str_eq_comm}
use wiremirage.Prelude.Utf8.{from_utf8, is_utf8, utf8_from, following}
use wiremirage.Prelude.Decimal.{parse_unsigned, parse_digits, scan_digits}
use wiremirage.Prelude.Assoc.{
  Assoc, lookup, insert, remove, lookup-insert_self, lookup-insert_other,
}
use wiremirage.Prelude.{ℕ, Bool, true, false, none, some, List, [], ok, ◌≡◌, refl, sym, ap, ◌∙◌}
use wiremirage.Store.{MemStore, MemValue, bytes, member_set}
use wiremirage.Store.Memory
use wiremirage.Store.Memory.{with_member, get_value}
use wiremirage.Store.Bucket
use wiremirage.Store.Runs.{
  Holds, Runs, then-Runs, hash_set-Runs, set_if_absent-run, set_add-run, members_kept,
  members_framed, fields_kept,
}
use wiremirage.Registry.Records.{flag}
use wiremirage.Registry.Stored.Keys.{IsUlid}
use wiremirage.Registry.Stored.Groups.{flag-IsText}
use wiremirage.Auth.{AuthError, auth_error, AuthCodec, User, normalize_email}
use wiremirage.Auth.Laws.{IsAuthCodec, IsNewUser}
use wiremirage.Auth.Records.{
  identifier, utf8, present, decode_epoch, epoch_number, parse_ts, some_time, decode_user,
}
use wiremirage.Auth.Stored.{
  user_key, by_email_key, all_users, with_email, settle_index, read_user_by_id, indexed_user,
  find_user_by_email,
}
use wiremirage.Auth.Stored.Keys.{by_email-user, all-user, by_email-all}
use wiremirage.Auth.Users.{
  write_user_fields, store_user, new_user, write_new_user, create_user, get_user_by_email,
}

flag_is_one : (b : Bool) → str_eq (flag b) (codes "1") ≡ b
unfolding flag str_eq
flag_is_one true = refl
flag_is_one false = refl

with_email_self : (user : User) → with_email user.email (some user) ≡ some user
unfolding with_email
with_email_self user = rw (str_eq_refl user.email) refl

module _ (codec : AuthCodec) where
  -- the fields that a write of the user adds
  unfoldable pub user_fields_of : User → Assoc Str → Assoc Str
  user_fields_of user h = insert (codes "session_epoch") (codes "0") (
      insert (codes "created_at") (codec.to_rfc3339 user.created_at) (
        insert (codes "is_admin") (flag user.is_admin)
          (insert (codes "primary_email") user.email (insert (codes "id") user.id h))))

  write_user_fields-Runs :
      (key : Str) (user : User) → Runs key (user_fields_of user) (write_user_fields codec key user)
  unfolding write_user_fields user_fields_of
  write_user_fields-Runs key user =
      let put = hash_set-Runs {E = AuthError} key in
      then-Runs key (put (codes "id") user.id) (
        then-Runs key (put (codes "primary_email") user.email) (
          then-Runs key (put (codes "is_admin") (flag user.is_admin)) (
            then-Runs key (put (codes "created_at") (codec.to_rfc3339 user.created_at))
              (put (codes "session_epoch") (codes "0")))))

  decode_user-fields :
      IsAuthCodec codec
      → (user : User) → IsNewUser user
      → decode_user codec (user_fields_of user []) ≡ ok user
  unfolding decode_user user_fields_of identifier utf8 present decode_epoch epoch_number parse_ts
      some_time from_utf8 lookup insert remove str_eq is_utf8 utf8_from following parse_unsigned
      parse_digits scan_digits
  decode_user-fields laws user new =
      rw
        (
          new.email_text,
          new.id_text,
          flag-IsText user.is_admin,
          flag_is_one user.is_admin,
          laws.time_text user.created_at,
          laws.time_parsed user.created_at new.created,
        )
        (ap (λ n. ok (record user { session_epoch = n })) (sym new.epoch))

-- The store that `store_user` leaves, and the run that gives it.
record HasStored (codec : AuthCodec) (user : User) (m : MemStore) : Type 0 where
  result : MemStore
  run : store_user codec user m ≡ (ok user, result)
  holds : Holds (user_key user.id) result (user_fields_of codec user [])
  indexed : lookup (by_email_key user.email) result ≡ some (bytes user.id)

module _ (codec : AuthCodec) (user : User) (m : MemStore) (ulid : IsUlid user.id) where
  store_user-HasStored :
      (every : List Str)
      → Holds (user_key user.id) m []
      → lookup (by_email_key user.email) m ≡ none
      → Memory.set_members m all_users ≡ ok every
      → HasStored codec user m
  unfolding store_user
  store_user-HasStored every fresh free all_set =
      let key = user_key user.id in
      let email_key = by_email_key user.email in
      let fields = write_user_fields-Runs codec key user m [] fresh in
      let m₁ : MemStore = insert email_key (bytes user.id) fields.result in
      let members : MemValue = member_set (with_member user.id every) in
      let unclaimed =
        fields.frame email_key (str_eq_comm key email_key ∙ by_email-user user.id user.email ulid)
        ∙ free in
      let all_there : Memory.set_members m₁ all_users ≡ ok every =
        members_kept email_key all_users (bytes user.id) fields.result (by_email-all user.email)
        ∙ members_framed key all_users m fields.result fields.frame (all-user user.id ulid)
        ∙ all_set in
      record {
        result = insert all_users members m₁;
        run =
            rw
              (
                fields.run,
                set_if_absent-run auth_error email_key user.id fields.result unclaimed,
                set_add-run auth_error all_users user.id m₁ all_there,
              )
              refl;
        holds =
            fields_kept all_users key members m₁ (all-user user.id ulid)
            ∙ fields_kept email_key key (bytes user.id) fields.result
                (by_email-user user.id user.email ulid)
            ∙ fields.holds;
        indexed =
            lookup-insert_other all_users email_key members m₁
              (str_eq_comm all_users email_key ∙ by_email-all user.email)
            ∙ lookup-insert_self email_key (bytes user.id) fields.result;
      }

  read_back :
      (stored : HasStored codec user m)
      → IsAuthCodec codec
      → IsNewUser user
      → read_user_by_id codec user.id stored.result ≡ (ok (some user), stored.result)
  unfolding read_user_by_id user_fields_of Bucket.hash_get_all Bucket.restored insert
  read_back stored laws new = rw (stored.holds) (rw (decode_user-fields codec laws user new) refl)

  found_in_index :
      (stored : HasStored codec user m)
      → IsAuthCodec codec
      → IsNewUser user
      → indexed_user codec user.email (some user.id) stored.result ≡ (ok (some user), stored.result)
  unfolding indexed_user settle_index from_utf8
  found_in_index stored laws new =
      rw (new.id_text, read_back stored laws new, with_email_self user) refl

  found_again :
      (stored : HasStored codec user m)
      → IsAuthCodec codec
      → IsNewUser user
      → find_user_by_email codec user.email stored.result ≡ (ok (some user), stored.result)
  unfolding find_user_by_email Bucket.get Bucket.restored Memory.get get_value
  found_again stored laws new = rw (stored.indexed) (rw (found_in_index stored laws new) refl)

-- A new user under a new id that is one of a ULID, and under an email that is not taken, is created
-- without an error, and is found then by the id and by every spelling of the email.
pub create_user-get_user_by_email :
    (codec : AuthCodec) (id : Str) (now : ℕ) (email spelling : Str) (is_admin : Bool)
    (every : List Str) (m : MemStore)
    → IsAuthCodec codec
    → IsUlid id
    → IsNewUser (new_user codec id now (normalize_email email) is_admin)
    → find_user_by_email codec (normalize_email email) m ≡ (ok none, m)
    → lookup (by_email_key (normalize_email email)) m ≡ none
    → Holds (user_key id) m []
    → Memory.set_members m all_users ≡ ok every
    → normalize_email spelling ≡ normalize_email email
    → (after : MemStore) × (create_user codec id now email is_admin m
        ≡ (ok (new_user codec id now (normalize_email email) is_admin), after))
      × (read_user_by_id codec id after
          ≡ (ok (some (new_user codec id now (normalize_email email) is_admin)), after))
      × (get_user_by_email codec spelling after
          ≡ (ok (some (new_user codec id now (normalize_email email) is_admin)), after))
unfolding create_user write_new_user get_user_by_email
create_user-get_user_by_email codec id now email spelling is_admin every m laws ulid new unknown
      free fresh all_set same =
    let user = new_user codec id now (normalize_email email) is_admin in
    let stored = store_user-HasStored codec user m ulid every fresh free all_set in
    (
      stored.result,
      rw (unknown, stored.run) refl,
      read_back codec user m ulid stored laws new,
      rw same (found_again codec user m ulid stored laws new),
    )
