-- ===== src/Auth/Sample.antt =====
-- A small store with a user and a token of hers, and a codec of plain functions.
use wiremirage.Prelude.Text.{Str, codes}
use wiremirage.Prelude.Decimal.{print, parse_unsigned, max_u64}
use wiremirage.Prelude.{◌+◌, true, none, some, [], ◌++◌}
use wiremirage.Store.{MemStore}
use wiremirage.Auth.{AuthCodec, User}
use wiremirage.Auth.Users.{create_user}
use wiremirage.Auth.Tokens.{create_token}
use wiremirage.Prelude.Decimal.RoundTrip.{parse_unsigned-print}
use wiremirage.Prelude.{arith}
use wiremirage.Registry.Stored.Groups.{print-IsText}
use wiremirage.Auth.Laws.{IsAuthCodec}

abbrev pub plain : AuthCodec
plain = record {
  to_rfc3339 = print;
  parse_from_rfc3339 = parse_unsigned max_u64;
  plus_seconds = λ t seconds. some (t + seconds);
  sha256_hex = λ text. codes "digest of " ++ text;
  access_from_slice = λ json. none;
}

abbrev pub ann_id : Str
ann_id = codes "01BX5ZZKBKACTAV9WEVGEMMVRZ"

abbrev pub token_id : Str
token_id = codes "01BX5ZZKBKACTAV9WEVGEMMVS0"

abbrev pub secret : Str
secret = codes "wmt_abc"

abbrev pub ann : User
ann = record {
  id = ann_id;
  email = codes "ann@example.com";
  is_admin = true;
  created_at = 100;
  session_epoch = 0;
}

abbrev pub with_ann : MemStore
with_ann = (create_user plain ann_id 100 (codes " Ann@Example.com") true []).1

abbrev pub with_token : MemStore
with_token = (create_token plain token_id 200 ann_id (codes "ci") secret (some 50) with_ann).1

pub plain-IsAuthCodec : IsAuthCodec plain
plain-IsAuthCodec = record {
  time_parsed = λ t early. parse_unsigned-print max_u64 t (omega arith);
  time_text = print-IsText;
}
