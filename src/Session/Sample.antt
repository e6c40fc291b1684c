-- ===== src/Session/Sample.antt =====
-- A codec of plain functions for sessions, with a session and its cookie.
use wiremirage.Prelude.Text.{Str, codes}
use wiremirage.Prelude.{
  ◌+◌, Option, none, some, [], ◌∷◌, ◌++◌, length, take, drop, drop-append, ◌≡◌, refl, ap,
}
use wiremirage.Store.{MemStore}
use wiremirage.Session.{Session, SessionStore, SessionCodec, create}
use wiremirage.Session.Cookies.{IsJson}

-- The numbers, then the lengths of the texts but the last, then the texts.
abbrev pub to_vec : Session → Str
to_vec s =
    s.created_at
    ∷ s.last_seen_at
    ∷ s.expires_at
    ∷ s.epoch
    ∷ length s.id
    ∷ length s.user_id
    ∷ length s.provider
    ∷ length s.ip_first_seen
    ∷ (s.id ++ (s.user_id ++ (s.provider ++ (s.ip_first_seen ++ s.user_agent))))

abbrev pub from_slice : Str → Option Session
from_slice (c ∷ l ∷ e ∷ n ∷ a ∷ b ∷ p ∷ i ∷ texts) = some (record {
  id = take a texts;
  user_id = take b (drop a texts);
  provider = take p (drop b (drop a texts));
  created_at = c;
  last_seen_at = l;
  expires_at = e;
  ip_first_seen = take i (drop p (drop b (drop a texts)));
  user_agent = drop i (drop p (drop b (drop a texts)));
  epoch = n;
})
from_slice _ = none

abbrev pub plain : SessionCodec
plain = record {
  compute_signature = λ secret token. secret ++ token;
  to_vec = λ s. some (to_vec s);
  from_slice = from_slice;
  plus_seconds = λ t seconds. some (t + seconds);
}

pub take-append : (s t : Str) → take (length s) (s ++ t) ≡ s
take-append [] t = refl
take-append (c ∷ s) t = ap (λ r. c ∷ r) (take-append s t)

read_back : (s : Session) → from_slice (to_vec s) ≡ some s
read_back s =
    rw
      (
        take-append s.id (s.user_id ++ (s.provider ++ (s.ip_first_seen ++ s.user_agent))),
        drop-append s.id (s.user_id ++ (s.provider ++ (s.ip_first_seen ++ s.user_agent))),
        take-append s.user_id (s.provider ++ (s.ip_first_seen ++ s.user_agent)),
        drop-append s.user_id (s.provider ++ (s.ip_first_seen ++ s.user_agent)),
        take-append s.provider (s.ip_first_seen ++ s.user_agent),
        drop-append s.provider (s.ip_first_seen ++ s.user_agent),
        take-append s.ip_first_seen s.user_agent,
        drop-append s.ip_first_seen s.user_agent,
      )
      refl

pub plain-IsJson : IsJson plain
plain-IsJson s = (to_vec s, refl, read_back s)

abbrev pub sessions : SessionStore
sessions = record { secret = codes "secret:"; ttl_seconds = 60 }

abbrev pub token : Str
token = codes "abc"

abbrev pub cookie : Str
cookie = codes "abc.secret:abc"

abbrev pub logged_in : Str → MemStore → MemStore
logged_in user_id m =
    (create plain sessions token (codes "s") 100 user_id (codes "local") [] [] 0 m).1
