-- ===== src/Auth/Stored/Reads.antt =====
-- crates/wm-host/src/auth.rs: the lookups of users and tokens by id leave the store as it is.
use wiremirage.Prelude.Text.{Str}
use wiremirage.Prelude.{none, is_empty, refl}
use wiremirage.Store.Action.{return, checked, hash_get_all}
use wiremirage.Store.Reads.{IsReading, bind-IsReading, if-IsReading}
use wiremirage.Auth.{AuthCodec, auth_error}
use wiremirage.Auth.Records.{decode_user, decode_token}
use wiremirage.Auth.Stored.{user_key, token_key, read_user_by_id, read_token_by_id}

module _ (codec : AuthCodec) where
  pub read_user_by_id-IsReading : (id : Str) → IsReading (read_user_by_id codec id)
  unfolding read_user_by_id
  read_user_by_id-IsReading id =
      bind-IsReading (hash_get_all (user_key id)) _ (λ m. refl)
        λ fields.
          if-IsReading (is_empty fields) (return none) _ (λ m. refl)
            (bind-IsReading (checked (decode_user codec fields)) _ (λ m. refl) (λ u m. refl))

  pub read_token_by_id-IsReading : (id : Str) → IsReading (read_token_by_id codec id)
  unfolding read_token_by_id
  read_token_by_id-IsReading id =
      bind-IsReading (hash_get_all (token_key id)) _ (λ m. refl)
        λ fields.
          if-IsReading (is_empty fields) (return none) _ (λ m. refl)
            (bind-IsReading (checked (decode_token codec fields)) _ (λ m. refl) (λ u m. refl))
