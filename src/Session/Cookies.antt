-- ===== src/Session/Cookies.antt =====
-- crates/wm-host/src/session.rs: which cookies a session is given for.
use wiremirage.Prelude.Text.{Str, codes, str_eq_refl, str_eq→eq}
use wiremirage.Prelude.Assoc.{insert, lookup-insert_self}
use wiremirage.Prelude.Split.{Lacks, split_once, split_once-first}
use wiremirage.Prelude.{
  ℕ, ◌≤◌, some, false, ok, ◌≡◌, refl, ap, sym, ◌∙◌, Bool-cases, inl, inr, ltb, arith, err-ne-ok,
  ok-injective, subst,
}
use wiremirage.Store.{MemStore, bytes}
use wiremirage.Store.Memory
use wiremirage.Store.Memory.{get_value}
use wiremirage.Store.Bucket
use wiremirage.Store.Action.{get, require_some}
use wiremirage.Store.Reads.{
  IsReading, bind-IsReading, require_some-IsReading, reading-eq-ok, some-eq-ok,
}
use wiremirage.Session.{
  not_found, malformed, signature_mismatch, invalid_cookie, Session, SessionStore, SessionCodec,
  session_error, session_key, sign_cookie, verify_signature, write, read, create, unexpired, load,
  validate,
}

-- serde_json reads what it wrote.
abbrev pub IsJson : SessionCodec → Type 0
IsJson codec =
    (s : Session) → (json : Str) × (codec.to_vec s ≡ some json) × (codec.from_slice json ≡ some s)

module _ (codec : SessionCodec) (sessions : SessionStore) where
  -- A session that was written is read back.
  pub write-read :
      (token : Str) (s : Session) (m : MemStore)
      → IsJson codec
      → (after : MemStore) × (write codec sessions token s m ≡ (ok tt, after))
        × (read codec sessions token after ≡ (ok s, after))
  unfolding write read Bucket.set Memory.set Bucket.get Bucket.restored Memory.get get_value
  write-read token s m laws =
      let (json, written, parsed) = laws s in
      (
        insert (session_key token) (bytes json) m,
        rw written refl,
        rw (lookup-insert_self (session_key token) (bytes json) m) (rw parsed refl),
      )

  -- the cookie of a token, whose session is there
  loaded :
      (token : Str) (now : ℕ) (s : Session) (m : MemStore)
      → Lacks b'.' token
      → read codec sessions token m ≡ (ok s, m)
      → ltb s.expires_at now ≡ false
      → validate codec sessions (sign_cookie codec sessions token) now m ≡ (ok s, m)
  unfolding validate sign_cookie load verify_signature unexpired
  loaded token now s m lacks found fresh =
      rw
        (
          split_once-first b'.' token (codec.compute_signature sessions.secret token) lacks,
          str_eq_refl (codec.compute_signature sessions.secret token),
          found,
          fresh,
        )
        refl

  -- The cookie that a login gives leads to the session of the login, up to its expiry, if the token
  -- has no dot.
  pub create-validate :
      (token id : Str) (now : ℕ) (user_id provider ip user_agent : Str) (epoch expires later : ℕ)
      (m : MemStore)
      → IsJson codec
      → Lacks b'.' token
      → codec.plus_seconds now sessions.ttl_seconds ≡ some expires
      → later ≤ expires
      → (s : Session) × (cookie : Str) × (after : MemStore) × (create codec sessions token id now
            user_id provider ip user_agent epoch m
          ≡ (ok (s, cookie), after))
        × (validate codec sessions cookie later after ≡ (ok s, after))
        × (s.user_id ≡ user_id)
        × (s.epoch ≡ epoch)
  unfolding create
  create-validate token id now user_id provider ip user_agent epoch expires later m laws lacks fits
        early =
      let s : Session = record {
        id = id;
        user_id = user_id;
        provider = provider;
        created_at = now;
        last_seen_at = now;
        expires_at = expires;
        ip_first_seen = ip;
        user_agent = user_agent;
        epoch = epoch;
      } in
      let (after, written, found) = write-read token s m laws in
      (
        s,
        sign_cookie codec sessions token,
        after,
        rw (fits, written) refl,
        loaded token later s after lacks found (ground arith),
        refl,
        refl,
      )

  -- What a cookie that is accepted has shown.
  pub record IsVouched (cookie : Str) (now : ℕ) (m : MemStore) (s : Session) : Type 0 where
    pub token : Str
    pub split : split_once b'.' cookie ≡ some (token, codec.compute_signature sessions.secret token)
    pub found : read codec sessions token m ≡ (ok s, m)
    pub unexpired : now ≤ s.expires_at

  pub read-IsReading : (token : Str) → IsReading (read codec sessions token)
  unfolding read
  read-IsReading token =
      bind-IsReading (get (session_key token)) _ (λ m. refl)
        λ found.
          bind-IsReading (require_some not_found found) _ (require_some-IsReading not_found found)
            λ json. require_some-IsReading (malformed (codes "decode")) (codec.from_slice json)

  unexpired-eq-ok :
      (token : Str) (now : ℕ) (x s : Session) (m after : MemStore)
      → unexpired codec sessions token now x m ≡ (ok s, after)
      → (x ≡ s) × (m ≡ after) × (now ≤ x.expires_at)
  unfolding unexpired
  unexpired-eq-ok token now x s m after h = elim (Bool-cases (ltb x.expires_at now)) [
    | inl late ↦ absurd (err-ne-ok not_found s (ap (λ p. p.0) (rw (late, unexpired) at h)))
    | inr fresh ↦
        let early : now ≤ x.expires_at = ground arith in
        let e = rw (fresh, unexpired) at h in
        (ok-injective x s (ap (λ p. p.0) e), ap (λ p. p.1) e, early)
  ]

  load-IsVouched :
      (cookie token signature : Str) (now : ℕ) (s : Session) (m after : MemStore)
      → split_once b'.' cookie ≡ some (token, signature)
      → load codec sessions token signature now m ≡ (ok s, after)
      → IsVouched cookie now m s × (after ≡ m)
  unfolding load verify_signature
  load-IsVouched cookie token signature now s m after split h =
      elim (Bool-cases (verify_signature codec sessions token signature)) [
        | inr bad ↦ absurd (err-ne-ok signature_mismatch s (ap (λ p. p.0) (rw (bad, load) at h)))
        | inl good ↦
            reading-eq-ok (IsVouched cookie now m s × (after ≡ m)) (read codec sessions token)
              (unexpired codec sessions token now) m (read-IsReading token) (rw (good, load) at h)
              λ x found rest.
                let (same, kept, fresh) = unexpired-eq-ok token now x s m after rest in
                (
                  record {
                    token = token;
                    split =
                        split
                        ∙ ap (λ g. some (token, g))
                            (sym (
                              str_eq→eq (codec.compute_signature sessions.secret token) signature
                                good));
                    found = found ∙ ap (λ y. (ok y, m)) same;
                    unexpired = subst (λ y. now ≤ Session.expires_at y) same fresh;
                  },
                  sym kept,
                )
      ]

  -- A session is given only for a token signed under the secret, as it is stored under that token, and
  -- only up to its expiry; and nothing is changed then.
  pub validate-IsVouched :
      (cookie : Str) (now : ℕ) (s : Session) (m after : MemStore)
      → validate codec sessions cookie now m ≡ (ok s, after)
      → IsVouched cookie now m s × (after ≡ m)
  unfolding validate
  validate-IsVouched cookie now s m after h =
      let (pair, split, rest) = some-eq-ok invalid_cookie (split_once b'.' cookie) _ m h in
      load-IsVouched cookie pair.0 pair.1 now s m after split rest
