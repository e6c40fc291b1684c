-- ===== src/Auth/Users/Epoch.antt =====
-- crates/wm-host/src/auth.rs: `bump_session_epoch` raises the epoch of the record by one.
use wiremirage.Prelude.Text.{Str, codes, str_eq}
use wiremirage.Prelude.Utf8.{from_utf8}
use wiremirage.Prelude.Assoc.{
  Assoc, lookup, insert, lookup-insert_self, lookup-insert_other, lookup-not_empty,
}
use wiremirage.Prelude.Decimal.{print, pos, max_i64, max_u64, ◌+ℤ◌, in_i64, print_i64}
use wiremirage.Prelude.Decimal.RoundTrip.{parse_unsigned-print}
use wiremirage.Prelude.{
  ℕ, ◌+◌, ◌<◌, ◌≤◌, Option, none, some, false, Result, ok, err, ◌>>=◌, ◌≡◌, refl, ap, ◌∙◌, arith,
  Result-cases, inl, inr, err-ne-ok, ok-injective,
}
use wiremirage.Store.{MemStore, hash}
use wiremirage.Store.Memory
use wiremirage.Store.Memory.{hash_value}
use wiremirage.Store.Memory.Frame.{OnlyAt, insert-OnlyAt}
use wiremirage.Store.Counters.{hash_incr}
use wiremirage.Store.Counters.Sums.{hash_incr-step}
use wiremirage.Store.Bucket
use wiremirage.Store.Runs.{Holds, inserted-Holds}
use wiremirage.Registry.Stored.Groups.{print-IsText}
use wiremirage.Auth.{AuthError, User, AuthCodec}
use wiremirage.Auth.Records.{
  identifier, utf8, present, decode_epoch, epoch_number, parse_ts, decode_user,
}
use wiremirage.Auth.Stored.{user_key, read_user_by_id}
use wiremirage.Auth.Users.{as_u64, bump_session_epoch}

identifier-same :
    (f g : Assoc Str)
    → lookup (codes "name") f ≡ lookup (codes "name") g
    → (o : Option Str) → identifier f o ≡ identifier g o
unfolding identifier utf8
identifier-same f g e none = ap (λ o. present o (codes "name")) e
identifier-same f g e (some bytes) = refl

abbrev with_epoch : ℕ → User → Result AuthError User
with_epoch n user = ok (record user { session_epoch = n })

module _ (codec : AuthCodec) where
  -- the record out of its parts
  abbrev decoded :
      Result AuthError Str
      → Result AuthError ℕ
      → Result AuthError Str
      → Result AuthError Str
      → Result AuthError Str
      → Result AuthError User
  decoded email epoch id is_admin created = email >>= λ e. epoch >>= λ n. id >>= λ i.
      is_admin >>= λ a. created >>= λ text. parse_ts codec text >>= λ t. ok (record {
        id = i;
        email = e;
        is_admin = str_eq a (codes "1");
        created_at = t;
        session_epoch = n;
      })

  decoded-epoch :
      (email : Result AuthError Str) (epoch : Result AuthError ℕ)
      (id is_admin created : Result AuthError Str) (n : ℕ) (user : User)
      → decoded email epoch id is_admin created ≡ ok user
      → decoded email (ok n) id is_admin created ≡ ok (record user { session_epoch = n })
  decoded-epoch (ok e) (ok k) (ok i) (ok a) (ok text) n user h =
      elim (Result-cases (parse_ts codec text)) [
        | inl (x, bad) ↦ absurd (err-ne-ok x user (rw bad at h))
        | inr (t, good) ↦ rw good (ap (with_epoch n) (ok-injective _ user (rw good at h)))
      ]
  decoded-epoch (err x) epoch id is_admin created n user h = cc h
  decoded-epoch (ok e) (err x) id is_admin created n user h = cc h
  decoded-epoch (ok e) (ok k) (err x) is_admin created n user h = cc h
  decoded-epoch (ok e) (ok k) (ok i) (err x) created n user h = cc h
  decoded-epoch (ok e) (ok k) (ok i) (ok a) (err x) n user h = cc h

  -- Another epoch in the fields is another epoch in the record, and nothing else.
  decode_user-epoch :
      (h : Assoc Str) (n : ℕ) (user : User)
      → n ≤ max_u64
      → decode_user codec h ≡ ok user
      → decode_user codec (insert (codes "session_epoch") (print n) h)
        ≡ ok (record user { session_epoch = n })
  unfolding decode_user identifier utf8 present decode_epoch epoch_number from_utf8 str_eq
  decode_user-epoch h n user fits e =
      let apart = λ (name : Str) (o : str_eq (codes "session_epoch") name ≡ false).
        lookup-insert_other (codes "session_epoch") name (print n) h o in
      rw
        (
          apart (codes "primary_email") refl,
          identifier-same (insert (codes "session_epoch") (print n) h) h (apart (codes "name") refl)
              (lookup (codes "primary_email") h),
          lookup-insert_self (codes "session_epoch") (print n) h,
          print-IsText n,
          parse_unsigned-print max_u64 n fits,
          apart (codes "id") refl,
          apart (codes "is_admin") refl,
          apart (codes "created_at") refl,
        )
        (decoded-epoch (identifier h (lookup (codes "primary_email") h))
          (decode_epoch (lookup (codes "session_epoch") h)) (utf8 h (codes "id"))
          (utf8 h (codes "is_admin")) (utf8 h (codes "created_at")) n user e)

  -- The fields of the key and the record that they are.
  pub record IsStored (id : Str) (m : MemStore) (h : Assoc Str) (user : User) : Type 0 where
    pub holds : Holds (user_key id) m h
    pub decoded : decode_user codec h ≡ ok user
    pub epoch : lookup (codes "session_epoch") h ≡ some (print user.session_epoch)

  pub stored-read :
      (id : Str) (m : MemStore) (h : Assoc Str) (user : User)
      → IsStored id m h user
      → read_user_by_id codec id m ≡ (ok (some user), m)
  unfolding read_user_by_id Bucket.hash_get_all Bucket.restored
  stored-read id m h user s =
      rw (s.holds) (rw (lookup-not_empty (codes "session_epoch") h s.epoch) (rw (s.decoded) refl))

  pub moved-IsStored :
      (id : Str) (m n : MemStore) (h : Assoc Str) (user : User)
      → lookup (user_key id) n ≡ lookup (user_key id) m
      → IsStored id m h user
      → IsStored id n h user
  unfolding Memory.hash_get_all
  moved-IsStored id m n h user same s = record {
    holds = ap (hash_value (user_key id)) same ∙ s.holds;
    decoded = s.decoded;
    epoch = s.epoch;
  }

  bumped :
      (id : Str) (m : MemStore) (h : Assoc Str) (n : ℕ)
      → Holds (user_key id) m h
      → lookup (codes "session_epoch") h ≡ some (print n)
      → n < max_i64
      → hash_incr m (user_key id) (codes "session_epoch") (pos 1) ≡ (
        ok (pos (n + 1)),
        insert (user_key id) (hash (insert (codes "session_epoch") (print (n + 1)) h)) m,
      )
  unfolding in_i64 ◌+ℤ◌ print_i64 Memory.hash_get_all
  bumped id m h n holds found fits =
      hash_incr-step m (user_key id) (codes "session_epoch") h (pos n) (pos 1) holds found
        (ground arith) (ground arith)

  -- The epoch of a user is raised by one in the record, nothing else of it is changed, and no other
  -- key is touched.
  pub bump_session_epoch-IsStored :
      (id : Str) (m : MemStore) (h : Assoc Str) (user : User)
      → IsStored id m h user
      → user.session_epoch < max_i64
      → (after : MemStore) × (h' : Assoc Str) × (bump_session_epoch codec id m
          ≡ (ok (user.session_epoch + 1), after))
        × IsStored id after h' (record user { session_epoch = user.session_epoch + 1 })
        × OnlyAt (user_key id) m after
  unfolding bump_session_epoch as_u64 Bucket.hash_incr Bucket.answer Bucket.restored
  bump_session_epoch-IsStored id m h user s fits =
      let next = user.session_epoch + 1 in
      let h' = insert (codes "session_epoch") (print next) h in
      (
        insert (user_key id) (hash h') m,
        h',
        rw (stored-read id m h user s, bumped id m h user.session_epoch s.holds s.epoch fits) refl,
        record {
          holds = inserted-Holds (user_key id) h' m;
          decoded = decode_user-epoch h next user (omega arith) s.decoded;
          epoch = lookup-insert_self (codes "session_epoch") (print next) h;
        },
        insert-OnlyAt (user_key id) (hash h') m,
      )
