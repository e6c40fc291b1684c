-- ===== src/Auth/Tokens/Created.antt =====
-- crates/wm-host/src/auth.rs: a token that was stored stands for its owner, up to its expiry.
use wiremirage.Prelude.Text.{Str, codes, str_eq}
use wiremirage.Prelude.Utf8.{from_utf8, is_utf8, utf8_from, following}
use wiremirage.Prelude.Blank.{split_whitespace, pieces_from}
use wiremirage.Prelude.Split.{join}
use wiremirage.Prelude.Assoc.{Assoc, lookup, insert, remove}
use wiremirage.Prelude.{ℕ, false, Option, none, some, List, [], is_empty, ok, ◌≡◌, refl, sym, ap₂}
use wiremirage.Store.Memory.Frame.{same-OnlyAt}
use wiremirage.Store.Runs.{Runs, then-Runs, hash_set-Runs}
use wiremirage.Registry.Laws.{IsText}
use wiremirage.Auth.{AuthError, auth_error, AuthCodec, Token, default_scopes}
use wiremirage.Auth.Laws.{IsAuthCodec, IsNewToken, IsOptionalTime}
use wiremirage.Auth.Records.{present, utf8, optional_ts, parse_ts, some_time, decode_token}
use wiremirage.Auth.Tokens.{write_expiry, write_token_fields}

module _ (codec : AuthCodec) where
  abbrev expiry_field : Option ℕ → Assoc Str → Assoc Str
  expiry_field none h = h
  expiry_field (some t) h = insert (codes "expires_at") (codec.to_rfc3339 t) h

  -- the fields that a write of the token adds
  unfoldable pub fields_of : Token → Assoc Str → Assoc Str
  fields_of token h = insert (codes "scopes") (join b' ' token.scopes) (
      expiry_field token.expires_at (
        insert (codes "created_at") (codec.to_rfc3339 token.created_at) (
          insert (codes "hash") token.token_hash (
            insert (codes "owner_id") token.owner_id
              (insert (codes "name") token.name (insert (codes "id") token.id h))))))

  write_expiry-Runs :
      (key : Str) (o : Option ℕ) → Runs key (expiry_field o) (write_expiry codec key o)
  unfolding write_expiry
  write_expiry-Runs key none m h holds = record {
    result = m;
    run = refl;
    holds = holds;
    frame = same-OnlyAt key m;
  }
  write_expiry-Runs key (some t) m h holds =
      hash_set-Runs key (codes "expires_at") (codec.to_rfc3339 t) m h holds

  pub write_token_fields-Runs :
      (key : Str) (token : Token) → Runs key (fields_of token) (write_token_fields codec key token)
  unfolding write_token_fields fields_of
  write_token_fields-Runs key token =
      let put = hash_set-Runs {E = AuthError} key in
      then-Runs key (put (codes "id") token.id) (
        then-Runs key (put (codes "name") token.name) (
          then-Runs key (put (codes "owner_id") token.owner_id) (
            then-Runs key (put (codes "hash") token.token_hash) (
              then-Runs key (put (codes "created_at") (codec.to_rfc3339 token.created_at)) (
                then-Runs key (write_expiry-Runs key token.expires_at)
                  (put (codes "scopes") (join b' ' token.scopes)))))))

  pub fields_of-not-empty : (token : Token) (h : Assoc Str) → is_empty (fields_of token h) ≡ false
  unfolding fields_of insert
  fields_of-not-empty token h = refl

  scopes_read :
      (scopes : List Str) → scopes ≡ default_scopes → split_whitespace (join b' ' scopes) ≡ scopes
  unfolding split_whitespace pieces_from join
  scopes_read scopes e = rw e refl

  scopes-IsText : (scopes : List Str) → scopes ≡ default_scopes → IsText (join b' ' scopes)
  unfolding join is_utf8 utf8_from following
  scopes-IsText scopes e = rw e refl

  pub decode_token-fields :
      IsAuthCodec codec
      → (token : Token) → IsNewToken token
      → (o : Option ℕ) → token.expires_at ≡ o
      → IsOptionalTime o
      → decode_token codec (fields_of (record token { expires_at = o }) []) ≡ ok token
  unfolding decode_token fields_of utf8 present optional_ts parse_ts some_time from_utf8 lookup
      insert remove str_eq
  decode_token-fields laws token new none e early =
      rw
        (
          scopes-IsText token.scopes new.scopes,
          new.id_text,
          new.name_text,
          new.owner_text,
          new.digest_text,
          laws.time_text token.created_at,
          laws.time_parsed token.created_at new.created,
          scopes_read token.scopes new.scopes,
        )
        (ap₂ (λ l x. ok (record token { last_used_at = l; expires_at = x })) (sym new.unused)
          (sym e))
  decode_token-fields laws token new (some t) e early =
      rw
        (
          laws.time_text t,
          laws.time_parsed t early,
          scopes-IsText token.scopes new.scopes,
          new.id_text,
          new.name_text,
          new.owner_text,
          new.digest_text,
          laws.time_text token.created_at,
          laws.time_parsed token.created_at new.created,
          scopes_read token.scopes new.scopes,
        )
        (ap₂ (λ l x. ok (record token { last_used_at = l; expires_at = x })) (sym new.unused)
          (sym e))
