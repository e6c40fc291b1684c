-- ===== src/Oauth/Sample.antt =====
-- A codec of plain functions for the records of the authorization server, and a store with a code.
use wiremirage.Prelude.Text.{Str, codes, str_eq}
use wiremirage.Prelude.{
  ℕ, suc, ◌+◌, ◌-◌, Option, none, some, List, [], ◌∷◌, ◌++◌, length, take, drop, drop-append, ◌≡◌,
  refl, ap, arith, zero,
}
use wiremirage.Session.Sample.{take-append}
use wiremirage.Store.{MemStore}
use wiremirage.Oauth.{OauthCodec, Json, OauthClient, AuthorizationCode, RefreshToken, TokenForm}
use wiremirage.Oauth.Records.{save_authorization_code}
use wiremirage.Oauth.Records.Written.{IsJson}
use wiremirage.Oauth.Grants.{Drawn}

-- Each text after its length.
abbrev pub packed : List Str → Str
packed [] = []
packed (t ∷ ts) = length t ∷ (t ++ packed ts)

abbrev pub unpacked : List Str → Str → List Str
unpacked [] s = []
unpacked (_ ∷ ts) [] = []
unpacked (_ ∷ ts) (n ∷ s) = take n s ∷ unpacked ts (drop n s)

-- as many texts as the list has
unpacked-packed : (ts us : List Str) → length ts ≡ length us → unpacked us (packed ts) ≡ ts
unpacked-packed [] [] e = refl
unpacked-packed [] (u ∷ us) e = cc
unpacked-packed (t ∷ ts) [] e = cc
unpacked-packed (t ∷ ts) (u ∷ us) e =
    rw (take-append t (packed ts), drop-append t (packed ts))
      (ap (λ r. t ∷ r) (unpacked-packed ts us (omega arith)))

abbrev pub number_of : Option ℕ → ℕ
number_of none = 0
number_of (some t) = suc t

abbrev pub option_of : ℕ → Option ℕ
option_of zero = none
option_of (suc t) = some t

option_of-number_of : (o : Option ℕ) → option_of (number_of o) ≡ o
option_of-number_of none = refl
option_of-number_of (some t) = refl

abbrev pub seven : List Str
seven = [] ∷ [] ∷ [] ∷ [] ∷ [] ∷ [] ∷ [] ∷ []

abbrev pub code_texts : AuthorizationCode → List Str
code_texts c =
    c.code ∷ c.client_id ∷ c.user_id ∷ c.redirect_uri ∷ c.scope ∷ c.code_challenge
    ∷ c.code_challenge_method ∷ []

abbrev pub code_from : ℕ → ℕ → List Str → Option AuthorizationCode
code_from created used (a ∷ b ∷ c ∷ d ∷ e ∷ f ∷ g ∷ []) = some (record {
  code = a;
  client_id = b;
  user_id = c;
  redirect_uri = d;
  scope = e;
  code_challenge = f;
  code_challenge_method = g;
  created_at = created;
  used_at = option_of used;
})
code_from created used _ = none

abbrev pub code_slice : Str → Option AuthorizationCode
code_slice (created ∷ used ∷ s) = code_from created used (unpacked seven s)
code_slice _ = none

abbrev pub code_json : Json AuthorizationCode
code_json = record {
  to_vec = λ c. some (c.created_at ∷ number_of c.used_at ∷ packed (code_texts c));
  from_slice = code_slice;
}

pub code_json-IsJson : IsJson code_json
code_json-IsJson c = (
  c.created_at ∷ number_of c.used_at ∷ packed (code_texts c),
  refl,
  rw (unpacked-packed (code_texts c) seven refl, option_of-number_of c.used_at) refl,
)

abbrev pub four : List Str
four = [] ∷ [] ∷ [] ∷ [] ∷ []

abbrev pub refresh_texts : RefreshToken → List Str
refresh_texts r = r.token_hash ∷ r.client_id ∷ r.user_id ∷ r.scope ∷ []

abbrev pub refresh_from : ℕ → ℕ → ℕ → List Str → Option RefreshToken
refresh_from created used revoked (a ∷ b ∷ c ∷ d ∷ []) = some (record {
  token_hash = a;
  client_id = b;
  user_id = c;
  scope = d;
  created_at = created;
  used_at = option_of used;
  revoked_at = option_of revoked;
})
refresh_from created used revoked _ = none

abbrev pub refresh_slice : Str → Option RefreshToken
refresh_slice (created ∷ used ∷ revoked ∷ s) = refresh_from created used revoked (unpacked four s)
refresh_slice _ = none

abbrev pub refresh_json : Json RefreshToken
refresh_json = record {
  to_vec = λ r.
      some (r.created_at ∷ number_of r.used_at ∷ number_of r.revoked_at ∷ packed (refresh_texts r));
  from_slice = refresh_slice;
}

pub refresh_json-IsJson : IsJson refresh_json
refresh_json-IsJson r = (
  r.created_at ∷ number_of r.used_at ∷ number_of r.revoked_at ∷ packed (refresh_texts r),
  refl,
  rw
      (
        unpacked-packed (refresh_texts r) four refl,
        option_of-number_of r.used_at,
        option_of-number_of r.revoked_at,
      )
      refl,
)

abbrev pub plain : OauthCodec
plain = record {
  client = record { to_vec = λ c. none; from_slice = λ s. none };
  pending = record { to_vec = λ p. none; from_slice = λ s. none };
  code = code_json;
  refresh = refresh_json;
  access = record { to_vec = λ a. some []; from_slice = λ s. none };
  hash_token = λ text. codes "#" ++ text;
  challenge_of = λ verifier. codes "S256 " ++ verifier;
  verify_password = λ digest secret. str_eq digest secret;
  plus_seconds = λ t seconds. t + seconds;
  num_seconds = λ from to. to - from;
  decode_basic = λ text. some text;
}

abbrev pub client : OauthClient
client = record {
  client_id = codes "wmc_1";
  client_secret_hash = codes "secret";
  client_name = codes "inspector";
  redirect_uris = codes "http://127.0.0.1/cb" ∷ [];
  grant_types = [];
  response_types = [];
  token_endpoint_auth_method = [];
  created_at = 1;
  last_used_at = none;
  revoked_at = none;
}

abbrev pub issued : AuthorizationCode
issued = record {
  code = codes "c0de";
  client_id = codes "wmc_1";
  user_id = codes "ann";
  redirect_uri = codes "http://127.0.0.1/cb";
  scope = codes "*";
  code_challenge = codes "S256 v";
  code_challenge_method = codes "S256";
  created_at = 100;
  used_at = none;
}

abbrev pub with_code : MemStore
with_code = (save_authorization_code plain issued []).1

abbrev pub code_form : TokenForm
code_form = record {
  grant_type = codes "authorization_code";
  code = some (codes "c0de");
  redirect_uri = some (codes "http://127.0.0.1/cb");
  code_verifier = some (codes "v");
  refresh_token = none;
  client_id = some (codes "wmc_1");
  client_secret = some (codes "secret");
}

abbrev pub refresh_form : Str → TokenForm
refresh_form token = record {
  grant_type = codes "refresh_token";
  code = none;
  redirect_uri = none;
  code_verifier = none;
  refresh_token = some token;
  client_id = some (codes "wmc_1");
  client_secret = some (codes "secret");
}

abbrev pub first : Drawn
first = record {
  access_plaintext = codes "wmm_1";
  refresh_plaintext = codes "wmr_1";
  used_at = 110;
  now = 111;
  saved_at = 112;
}

abbrev pub second : Drawn
second = record {
  access_plaintext = codes "wmm_2";
  refresh_plaintext = codes "wmr_2";
  used_at = 120;
  now = 121;
  saved_at = 122;
}
