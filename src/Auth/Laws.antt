-- ===== src/Auth/Laws.antt =====
-- What the users and tokens rely on of the crates chrono and sha2, and of the values that a program of
-- Rust can hold: a `String` is UTF-8.
use wiremirage.Prelude.{ℕ, ◌<◌, Option, none, some, ◌≡◌}
use wiremirage.Registry.Laws.{IsText, year_10000}
use wiremirage.Auth.{AuthCodec, Token, User, default_scopes}

-- `to_rfc3339` gives a text that parses to the time.
pub record IsAuthCodec (codec : AuthCodec) : Type 0 where
  pub time_parsed :
      (t : ℕ) → t < year_10000 → codec.parse_from_rfc3339 (codec.to_rfc3339 t) ≡ some t
  pub time_text : (t : ℕ) → IsText (codec.to_rfc3339 t)

abbrev pub IsOptionalTime : Option ℕ → Type 0
IsOptionalTime none = Unit {0}
IsOptionalTime (some t) = t < year_10000

-- A token without a use so far.
pub record IsNewToken (token : Token) : Type 0 where
  pub id_text : IsText token.id
  pub name_text : IsText token.name
  pub owner_text : IsText token.owner_id
  pub digest_text : IsText token.token_hash
  pub created : token.created_at < year_10000
  pub expiry : IsOptionalTime token.expires_at
  pub unused : token.last_used_at ≡ none
  pub scopes : token.scopes ≡ default_scopes

-- A user as `write_new_user` makes one.
pub record IsNewUser (user : User) : Type 0 where
  pub id_text : IsText user.id
  pub email_text : IsText user.email
  pub created : user.created_at < year_10000
  pub epoch : user.session_epoch ≡ 0
