-- ===== src/Auth/Tokens/Leftovers.antt =====
-- crates/wm-host/src/auth.rs: what is left of a deleted user.
use wiremirage.Prelude.Text.{Str, codes, str_eq, mem_str}
use wiremirage.Prelude.Assoc.{Assoc, lookup, lookup-not_empty}
use wiremirage.Prelude.{Option, none, some, ok, err, ◌≡◌, refl, ap, subst, sym, ◌∙◌}
use wiremirage.Store.{MemStore}
use wiremirage.Store.Bucket
use wiremirage.Store.Action.{for_each, hash_delete, delete, set_remove, set_members, delete_fields}
use wiremirage.Store.Runs.{Holds, removed, lookup-removed, delete_fields-Runs}
use wiremirage.Store.Keeps.{
  Keeps, bind-Keeps, for_each-Keeps, delete-Keeps, set_remove-Keeps, hash_delete-Keeps, Leaves,
  bind-Leaves, Runs-Leaves, reading-Keeps,
}
use wiremirage.Registry.Stored.Keys.{IsUlid}
use wiremirage.Auth.{auth_error, malformed, User, Token, AuthCodec}
use wiremirage.Auth.Records.{identifier, utf8, present, decode_user}
use wiremirage.Auth.Stored.{
  user_key, by_email_key, by_handle_key, all_users, token_key, by_hash_key, token_name_key,
  token_owner_key, read_user_by_id, read_token_by_id,
}
use wiremirage.Auth.Stored.Reads.{read_token_by_id-IsReading}
use wiremirage.Auth.Stored.Keys.{
  by_email-user, by_handle-user, all-user, token-user, by_hash-user, token_owner-user,
  token_name-user,
}
use wiremirage.Auth.Tokens.{
  token_fields, user_fields, delete_token, dropped, drop_token, drop_user, delete_user,
}

delete_token-Keeps : (id : Str) (token : Token) → Keeps (user_key id) (delete_token token)
unfolding delete_token delete_fields
delete_token-Keeps id token =
    let key = user_key id in
    bind-Keeps key (delete (by_hash_key token.token_hash)) _
      (delete-Keeps auth_error _ key (by_hash-user token.token_hash id))
      λ a.
        bind-Keeps key (delete (token_name_key token.owner_id token.name)) _
          (delete-Keeps auth_error _ key (token_name-user token.owner_id token.name id))
          λ b.
            bind-Keeps key (set_remove (token_owner_key token.owner_id) token.id) _
              (set_remove-Keeps auth_error _ token.id key (token_owner-user token.owner_id id))
              λ c. for_each-Keeps key (hash_delete (token_key token.id)) token_fields λ field.
                hash_delete-Keeps auth_error (token_key token.id) field key (token-user token.id id)

dropped-Keeps : (id : Str) (found : Option Token) → Keeps (user_key id) (dropped found)
unfolding dropped
dropped-Keeps id none m = refl
dropped-Keeps id (some token) m = delete_token-Keeps id token m

module _ (codec : AuthCodec) where
  drop_token-Keeps : (id token_id : Str) → Keeps (user_key id) (drop_token codec token_id)
  unfolding drop_token
  drop_token-Keeps id token_id =
      bind-Keeps (user_key id) (read_token_by_id codec token_id) _
        (reading-Keeps (user_key id) (read_token_by_id codec token_id)
          (read_token_by_id-IsReading codec token_id))
        λ found. dropped-Keeps id found

  drop_user-Leaves :
      (user : User)
      → IsUlid user.id
      → Leaves (user_key user.id) (removed user_fields) (drop_user codec user)
  unfolding drop_user
  drop_user-Leaves user ulid =
      let key = user_key user.id in
      bind-Leaves key (set_members (token_owner_key user.id)) _ (λ m. refl)
        λ ids.
          bind-Leaves key (for_each (drop_token codec) ids) _
            (for_each-Keeps key (drop_token codec) ids (drop_token-Keeps user.id))
            λ a.
              bind-Leaves key (delete (by_email_key user.email)) _
                (delete-Keeps auth_error _ key (by_email-user user.id user.email ulid))
                λ b.
                  bind-Leaves key (delete (by_handle_key user.email)) _
                    (delete-Keeps auth_error _ key (by_handle-user user.id user.email ulid))
                    λ c.
                      bind-Leaves key (set_remove all_users user.id) _
                        (set_remove-Keeps auth_error _ user.id key (all-user user.id ulid))
                        λ d.
                          Runs-Leaves key (removed user_fields) _
                            (delete_fields-Runs auth_error key user_fields)

  left-malformed :
      (id : Str) (m : MemStore) (h : Assoc Str) {epoch : Str}
      → lookup (codes "session_epoch") h ≡ some epoch
      → Holds (user_key id) m (removed user_fields h)
      → read_user_by_id codec id m ≡ (err (malformed (codes "name")), m)
  unfolding read_user_by_id decode_user identifier utf8 present mem_str str_eq Bucket.hash_get_all
      Bucket.restored
  left-malformed id m h epoch holds =
      let none_of = λ (name : Str). lookup-removed name user_fields h in
      rw (holds) (
        rw
          (lookup-not_empty (codes "session_epoch") (removed user_fields h)
            (none_of (codes "session_epoch") ∙ epoch))
          (rw (none_of (codes "primary_email"), none_of (codes "name")) refl))

  -- The deletion of a user leaves the field of the session epoch, which every new user has: where it
  -- ends well, a read of the user gives an error about the missing name, and not that there is none.
  pub delete_user-malformed :
      (id : Str) (user : User) (m : MemStore) (h : Assoc Str) {epoch : Str}
      → IsUlid id
      → read_user_by_id codec id m ≡ (ok (some user), m)
      → user.id ≡ id
      → Holds (user_key id) m h
      → lookup (codes "session_epoch") h ≡ some epoch
      → (delete_user codec id m).0 ≡ ok tt
      → read_user_by_id codec id (delete_user codec id m).1
        ≡ (err (malformed (codes "name")), (delete_user codec id m).1)
  unfolding delete_user
  delete_user-malformed id user m h ulid found same holds epoch done =
      let run : delete_user codec id m ≡ drop_user codec user m = rw found refl in
      let holds_own = subst (λ k. Holds (user_key k) m h) (sym same) holds in
      let left =
        drop_user-Leaves user (subst IsUlid (sym same) ulid) m h tt holds_own
          (sym (ap (λ r. r.0) run) ∙ done) in
      rw run (
        left-malformed id (drop_user codec user m).1 h epoch (
          subst (λ k. Holds (user_key k) (drop_user codec user m).1 (removed user_fields h)) same
            left))
