-- ===== src/Auth/Tokens/Revoked.antt =====
-- crates/wm-host/src/auth.rs: a revoked token stands for nobody.
use wiremirage.Prelude.Text.{Str, codes, starts_with}
use wiremirage.Prelude.Assoc.{lookup, remove, lookup-remove_self}
use wiremirage.Prelude.{ℕ, none, some, true, ok, ◌≡◌, refl, ◌∙◌}
use wiremirage.Store.{MemStore}
use wiremirage.Store.Memory
use wiremirage.Store.Memory.{get_value}
use wiremirage.Store.Bucket
use wiremirage.Store.Action.{◌>>◌, return, hash_delete, delete, set_remove, delete_fields}
use wiremirage.Store.Keeps.{
  Keeps, bind-Keeps, after-Keeps, for_each-Keeps, delete-Keeps, set_remove-Keeps, hash_delete-Keeps,
}
use wiremirage.Registry.Stored.Keys.{IsUlid}
use wiremirage.Auth.{AuthError, auth_error, Token, AuthCodec}
use wiremirage.Auth.Stored.{token_key, by_hash_key, token_name_key, token_owner_key}
use wiremirage.Auth.Stored.Keys.{token_name-by_hash, by_hash-token_owner, token-by_hash}
use wiremirage.Auth.Tokens.{token_fields, delete_token, get_token_by_name, revoke_token_by_name}
use wiremirage.Auth.Authenticate.{hashed_token, token_context, authenticate_wmt, authenticate}

module _ (token : Token) (ulid : IsUlid token.id) where
  abbrev entry : Str
  entry = by_hash_key token.token_hash

  -- what a deletion does after it has dropped the entry of the index by hash
  rest-Keeps : Keeps {E = AuthError} entry (
      delete (token_name_key token.owner_id token.name)
      >> (set_remove (token_owner_key token.owner_id) token.id
          >> delete_fields (token_key token.id) token_fields))
  unfolding delete_fields
  rest-Keeps =
      bind-Keeps entry (delete (token_name_key token.owner_id token.name)) _
        (delete-Keeps auth_error _ entry
          (token_name-by_hash token.owner_id token.name token.token_hash))
        λ b.
          bind-Keeps entry (set_remove (token_owner_key token.owner_id) token.id) _
            (set_remove-Keeps auth_error _ token.id entry
              (by_hash-token_owner token.owner_id token.token_hash))
            λ c. for_each-Keeps entry (hash_delete (token_key token.id)) token_fields λ field.
              hash_delete-Keeps auth_error (token_key token.id) field entry
                (token-by_hash token.id token.token_hash ulid)

  pub delete_token-none : (m : MemStore) → lookup entry (delete_token token m).1 ≡ none
  unfolding delete_token Bucket.delete Memory.delete
  delete_token-none m = rest-Keeps (remove entry m) ∙ lookup-remove_self entry m

module _ (codec : AuthCodec) where
  -- A plaintext without an entry in the index by hash stands for nobody.
  pub unknown_token :
      (now later : ℕ) (plaintext : Str) (m : MemStore)
      → starts_with (codes "wmt_") plaintext ≡ true
      → lookup (by_hash_key (codec.sha256_hex plaintext)) m ≡ none
      → authenticate codec now later plaintext m ≡ (ok none, m)
  unfolding authenticate authenticate_wmt hashed_token token_context Bucket.get Bucket.restored
      Memory.get get_value
  unknown_token now later plaintext m wmt gone = rw (wmt, gone) refl

  -- After a token has been revoked, no plaintext with its digest authenticates, be it that a later
  -- step of the revocation fails, if the id of the token is one of a ULID.
  pub revoke_token_by_name-unknown :
      (owner_id name : Str) (token : Token) (now later : ℕ) (plaintext : Str) (m : MemStore)
      → IsUlid token.id
      → get_token_by_name codec owner_id name m ≡ (ok (some token), m)
      → codec.sha256_hex plaintext ≡ token.token_hash
      → starts_with (codes "wmt_") plaintext ≡ true
      → authenticate codec now later plaintext (revoke_token_by_name codec owner_id name m).1
        ≡ (ok none, (revoke_token_by_name codec owner_id name m).1)
  unfolding revoke_token_by_name
  revoke_token_by_name-unknown owner_id name token now later plaintext m ulid found digest wmt =
      unknown_token now later plaintext (revoke_token_by_name codec owner_id name m).1 wmt (
        rw (digest, found)
          (after-Keeps (by_hash_key token.token_hash) (λ u. return true) (delete_token token m)
              (λ u n. refl)
            ∙ delete_token-none token ulid m))
