-- ===== src/Auth/Records.antt =====
-- crates/wm-host/src/auth.rs: the records out of the hashes that the store keeps.
use wiremirage.Prelude.Text.{Str, codes, str_eq}
use wiremirage.Prelude.Utf8.{from_utf8}
use wiremirage.Prelude.Blank.{split_whitespace}
use wiremirage.Prelude.Assoc.{Assoc, lookup}
use wiremirage.Prelude.Decimal.{parse_unsigned, max_u64}
use wiremirage.Prelude.{ℕ, Option, none, some, Result, ok, err, ◌>>=◌}
use wiremirage.Auth.{AuthError, malformed, User, Token, AuthCodec}

unfoldable pub present : Option Str → Str → Result AuthError Str
present none name = err (malformed name)
present (some bytes) name = from_utf8 bytes (malformed name)

unfoldable pub utf8 : Assoc Str → Str → Result AuthError Str
utf8 fields name = present (lookup name fields) name

-- the stored identifier, or the handle of a record from before it
unfoldable pub identifier : Assoc Str → Option Str → Result AuthError Str
identifier fields none = utf8 fields (codes "name")
identifier fields (some bytes) = from_utf8 bytes (malformed (codes "primary_email"))

unfoldable pub epoch_number : Option ℕ → Result AuthError ℕ
epoch_number none = err (malformed (codes "session_epoch"))
epoch_number (some n) = ok n

unfoldable pub decode_epoch : Option Str → Result AuthError ℕ
decode_epoch none = ok 0
decode_epoch (some bytes) = from_utf8 bytes (malformed (codes "session_epoch")) >>= λ text.
    epoch_number (parse_unsigned max_u64 text)

module _ (codec : AuthCodec) where
  unfoldable pub some_time : Option ℕ → Result AuthError ℕ
  some_time none = err (malformed (codes "timestamp"))
  some_time (some t) = ok t

  unfoldable pub parse_ts : Str → Result AuthError ℕ
  parse_ts s = some_time (codec.parse_from_rfc3339 s)

  unfoldable pub decode_user : Assoc Str → Result AuthError User
  decode_user fields = do
    email ← identifier fields (lookup (codes "primary_email") fields)
    session_epoch ← decode_epoch (lookup (codes "session_epoch") fields)
    id ← utf8 fields (codes "id")
    is_admin ← utf8 fields (codes "is_admin")
    created_text ← utf8 fields (codes "created_at")
    created_at ← parse_ts created_text
    ok (record {
      id = id;
      email = email;
      is_admin = str_eq is_admin (codes "1");
      created_at = created_at;
      session_epoch = session_epoch;
    })

  unfoldable pub optional_ts : Str → Option Str → Result AuthError (Option ℕ)
  optional_ts name none = ok none
  optional_ts name (some bytes) = do
    text ← from_utf8 bytes (malformed name)
    t ← parse_ts text
    ok (some t)

  unfoldable pub decode_token : Assoc Str → Result AuthError Token
  decode_token fields = do
    expires_at ← optional_ts (codes "expires_at") (lookup (codes "expires_at") fields)
    last_used_at ← optional_ts (codes "last_used_at") (lookup (codes "last_used_at") fields)
    scopes ← utf8 fields (codes "scopes")
    id ← utf8 fields (codes "id")
    name ← utf8 fields (codes "name")
    owner_id ← utf8 fields (codes "owner_id")
    token_hash ← utf8 fields (codes "hash")
    created_text ← utf8 fields (codes "created_at")
    created_at ← parse_ts created_text
    ok (record {
      id = id;
      name = name;
      owner_id = owner_id;
      token_hash = token_hash;
      created_at = created_at;
      last_used_at = last_used_at;
      expires_at = expires_at;
      scopes = split_whitespace scopes;
    })
