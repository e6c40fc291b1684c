-- ===== src/Auth/Tokens/Valid.antt =====
-- crates/wm-host/src/auth.rs: `create_token` and `authenticate` together.
use wiremirage.Prelude.Text.{Str, codes, str_eq_comm, starts_with}
use wiremirage.Prelude.Utf8.{from_utf8}
use wiremirage.Prelude.Assoc.{Assoc, lookup, insert, lookup-insert_self, lookup-insert_other}
use wiremirage.Prelude.{
  ℕ, true, false, Option, none, some, List, [], ok, ◌≡◌, refl, ◌∙◌, if◌then◌else◌, Bool-cases, inl,
  inr,
}
use wiremirage.Store.{MemStore, MemValue, bytes, member_set}
use wiremirage.Store.Memory
use wiremirage.Store.Memory.{with_member, get_value}
use wiremirage.Store.Bucket
use wiremirage.Store.Runs.{Holds, set-run, set_add-run, members_kept, members_framed, fields_kept}
use wiremirage.Registry.Stored.Keys.{IsUlid}
use wiremirage.Auth.{auth_error, AuthCodec, CredentialKind, User, Token}
use wiremirage.Auth.Laws.{IsAuthCodec, IsNewToken}
use wiremirage.Auth.Stored.{
  user_key, token_key, by_hash_key, token_name_key, token_owner_key, read_token_by_id,
}
use wiremirage.Auth.Stored.Keys.{
  by_hash-token, token_owner-token, token_name-token, token-user, by_hash-user, token_owner-user,
  token_name-user, token_name-by_hash, by_hash-token_owner, token_name-token_owner,
}
use wiremirage.Auth.Tokens.{new_token, expiry, store_token, write_new_token, create_token}
use wiremirage.Auth.Tokens.Created.{
  fields_of, fields_of-not-empty, write_token_fields-Runs, decode_token-fields,
}
use wiremirage.Auth.Users.Epoch.{IsStored, moved-IsStored, stored-read}
use wiremirage.Auth.Authenticate.{
  context, has_expired, owner_context, token_context, hashed_token, authenticate_wmt, authenticate,
}

-- The store that `store_token` leaves, and the run that gives it.
record HasStored (codec : AuthCodec) (token : Token) (m : MemStore) : Type 0 where
  result : MemStore
  run : store_token codec token m ≡ (ok tt, result)
  holds : Holds (token_key token.id) result (fields_of codec token [])
  hashed : lookup (by_hash_key token.token_hash) result ≡ some (bytes token.id)
  users : (id : Str) → lookup (user_key id) result ≡ lookup (user_key id) m

module _ (codec : AuthCodec) (token : Token) (m : MemStore) (ulid : IsUlid token.id) where
  store_token-HasStored :
      (owned : List Str)
      → Holds (token_key token.id) m []
      → Memory.set_members m (token_owner_key token.owner_id) ≡ ok owned
      → HasStored codec token m
  unfolding store_token
  store_token-HasStored owned fresh owned_set =
      let key = token_key token.id in
      let hash_key = by_hash_key token.token_hash in
      let name_key = token_name_key token.owner_id token.name in
      let owner_key = token_owner_key token.owner_id in
      let fields = write_token_fields-Runs codec key token m [] fresh in
      let m₁ : MemStore = insert hash_key (bytes token.id) fields.result in
      let m₂ : MemStore = insert name_key (bytes token.id) m₁ in
      let members : MemValue = member_set (with_member token.id owned) in
      let owned_there : Memory.set_members m₂ owner_key ≡ ok owned =
        members_kept name_key owner_key (bytes token.id) m₁
          (token_name-token_owner token.owner_id token.name token.owner_id)
        ∙ members_kept hash_key owner_key (bytes token.id) fields.result
            (str_eq_comm hash_key owner_key ∙ by_hash-token_owner token.owner_id token.token_hash)
        ∙ members_framed key owner_key m fields.result fields.frame
            (token_owner-token token.id token.owner_id ulid)
        ∙ owned_set in
      record {
        result = insert owner_key members m₂;
        run =
            rw
              (
                fields.run,
                set-run auth_error hash_key token.id fields.result,
                set-run auth_error name_key token.id m₁,
                set_add-run auth_error owner_key token.id m₂ owned_there,
              )
              refl;
        holds =
            fields_kept owner_key key members m₂ (token_owner-token token.id token.owner_id ulid)
            ∙ fields_kept name_key key (bytes token.id) m₁
                (token_name-token token.id token.owner_id ulid token.name)
            ∙ fields_kept hash_key key (bytes token.id) fields.result
                (by_hash-token token.id token.token_hash ulid)
            ∙ fields.holds;
        hashed =
            lookup-insert_other owner_key hash_key members m₂
              (by_hash-token_owner token.owner_id token.token_hash)
            ∙ lookup-insert_other name_key hash_key (bytes token.id) m₁
                (token_name-by_hash token.owner_id token.name token.token_hash)
            ∙ lookup-insert_self hash_key (bytes token.id) fields.result;
        users = λ id.
            lookup-insert_other owner_key (user_key id) members m₂
              (token_owner-user token.owner_id id)
            ∙ lookup-insert_other name_key (user_key id) (bytes token.id) m₁
                (token_name-user token.owner_id token.name id)
            ∙ lookup-insert_other hash_key (user_key id) (bytes token.id) fields.result
                (by_hash-user token.token_hash id)
            ∙ fields.frame (user_key id) (token-user token.id id);
      }

  stored-token :
      (stored : HasStored codec token m)
      → IsAuthCodec codec
      → IsNewToken token
      → read_token_by_id codec token.id stored.result ≡ (ok (some token), stored.result)
  unfolding read_token_by_id Bucket.hash_get_all Bucket.restored
  stored-token stored laws new = rw (stored.holds) (
      rw
        (
          fields_of-not-empty codec token [],
          decode_token-fields codec laws token new token.expires_at refl new.expiry,
        )
        refl)

  valid :
      (h : Assoc Str) (user : User) (plaintext : Str) (now later : ℕ)
      (stored : HasStored codec token m)
      → IsAuthCodec codec
      → IsNewToken token
      → IsStored codec token.owner_id m h user
      → codec.sha256_hex plaintext ≡ token.token_hash
      → starts_with (codes "wmt_") plaintext ≡ true
      → has_expired now token.expires_at ≡ false
      → (authenticate codec now later plaintext stored.result).0
        ≡ ok (some (context user CredentialKind.token token.id))
  unfolding authenticate authenticate_wmt hashed_token token_context owner_context from_utf8
      Bucket.get Bucket.restored Memory.get get_value
  valid h user plaintext now later stored laws new owner digest wmt fresh =
      let at_hand = stored-read codec token.owner_id stored.result h user (
        moved-IsStored codec token.owner_id m stored.result h user (stored.users token.owner_id)
          owner) in
      rw (wmt, digest, stored.hashed, new.id_text, stored-token stored laws new, fresh, at_hand)
        refl

  outdated :
      (plaintext : Str) (now later : ℕ) (stored : HasStored codec token m)
      → IsAuthCodec codec
      → IsNewToken token
      → codec.sha256_hex plaintext ≡ token.token_hash
      → starts_with (codes "wmt_") plaintext ≡ true
      → has_expired now token.expires_at ≡ true
      → (authenticate codec now later plaintext stored.result).0 ≡ ok none
  unfolding authenticate authenticate_wmt hashed_token token_context from_utf8 Bucket.get
      Bucket.restored Memory.get get_value
  outdated plaintext now later stored laws new digest wmt late =
      rw (wmt, digest, stored.hashed, new.id_text, stored-token stored laws new, late) refl

module _ (codec : AuthCodec) (id : Str) (now : ℕ) (owner_id name plaintext : Str)
    (expires : Option ℕ) where
  -- A new token of a user, under a new id that is one of a ULID and a name that the user has no token
  -- of, is stored without an error, and from then on its plaintext stands for the user up to the
  -- expiry, and for nobody after it.
  pub create_token-authenticate :
      (ttl_seconds : Option ℕ) (user : User) (h : Assoc Str) (owned : List Str) (m : MemStore)
      (time later : ℕ)
      → IsAuthCodec codec
      → IsUlid id
      → IsNewToken (new_token codec id now owner_id name plaintext expires)
      → starts_with (codes "wmt_") plaintext ≡ true
      → IsStored codec owner_id m h user
      → lookup (token_name_key owner_id name) m ≡ none
      → Holds (token_key id) m []
      → Memory.set_members m (token_owner_key owner_id) ≡ ok owned
      → expiry codec now ttl_seconds ≡ ok expires
      → (after : MemStore) × (create_token codec id now owner_id name plaintext ttl_seconds m
          ≡ (ok (new_token codec id now owner_id name plaintext expires, plaintext), after))
        × ((authenticate codec time later plaintext after).0
            ≡ ok (
                if has_expired time expires
                then none
                else some (context user CredentialKind.token id)))
  unfolding create_token write_new_token Bucket.get Bucket.restored Memory.get get_value
  create_token-authenticate ttl_seconds user h owned m time later laws ulid new wmt owner unnamed
        fresh owned_set fits =
      let token : Token = new_token codec id now owner_id name plaintext expires in
      let stored = store_token-HasStored codec token m ulid owned fresh owned_set in
      (
        stored.result,
        rw (stored-read codec owner_id m h user owner, unnamed, fits, stored.run) refl,
        elim (Bool-cases (has_expired time expires)) [
          | inl late ↦
              rw late
                (outdated codec token m ulid plaintext time later stored laws new refl wmt late)
          | inr early ↦ rw early (
              valid codec token m ulid h user plaintext time later stored laws new owner refl wmt
                early)
        ],
      )
