-- ===== src/Credential/SignOut.antt =====
-- crates/wm-host/src/api.rs, auth.rs, session.rs and mcp_oauth.rs together: "sign out everywhere".
use wiremirage.Prelude.Text.{Str, codes, str_eq, str_eq_comm}
use wiremirage.Prelude.Assoc.{Assoc, lookup, lookup-insert_other, lookup-remove_other}
use wiremirage.Prelude.Split.{split_once}
use wiremirage.Prelude.{
  ℕ, ◌+◌, ◌<◌, ◌==◌, Option, none, some, false, [], Result, ok, err, ◌≡◌, ◌⊎◌, inl, inr, refl, ap,
  ◌∙◌, arith, Bool-cases, Option-cases, ltb,
}
use wiremirage.Prelude.Decimal.{max_i64}
use wiremirage.Store.{MemStore, StoreError, bytes}
use wiremirage.Store.Memory
use wiremirage.Store.Memory.{hash_value, get_value}
use wiremirage.Store.Bucket
use wiremirage.Store.Bucket.{restored}
use wiremirage.Store.Action.{◌>>=◌, after, require_some, from_store, ok_or_none}
use wiremirage.Auth.{User, AuthCodec}
use wiremirage.Auth.Stored.{user_key}
use wiremirage.Auth.Users.{get_user_by_id, bump_session_epoch}
use wiremirage.Auth.Users.Epoch.{moved-IsStored, IsStored, stored-read, bump_session_epoch-IsStored}
use wiremirage.Store.Reads.{reading-run}
use wiremirage.Session.Cookies.{read-IsReading}
use wiremirage.Session.{
  session_error, not_found, malformed, signature_mismatch, out_of_range, drop_session,
  verify_signature, Session, SessionStore, SessionCodec, SessionError, session_key, read, write,
  load, unexpired, slide, touch,
}
use wiremirage.Credential.{
  Parts, unauthorized, Refusal, invalid_session, session_revoked, extract_session_cookie,
  session_context, cookie_context, header_context, from_request_parts, granting_user,
  resolve_session_user,
}

attempt-none :
    {E A : Type 0} {e : E} (r : Result E A × MemStore) → r.0 ≡ err e → (ok_or_none r).0 ≡ ok none
attempt-none (ok a, m) h = cc h
attempt-none (err e, m) h = refl

session-user : (token id : Str) → str_eq (session_key token) (user_key id) ≡ false
unfolding session_key user_key str_eq
session-user token id = refl

module _ (cookies : SessionCodec) (sessions : SessionStore) (now later : ℕ) where
  -- A touch refuses, or gives the user and the epoch of the session; the users stay as they are.
  record IsTouched (s : Session) (id : Str) (m : MemStore)
      (r : Result SessionError Session × MemStore) : Type 0 where
    answered :
        ((e : SessionError) × (r.0 ≡ err e))
        ⊎ ((seen : Session) × (r.0 ≡ ok seen) × (seen.user_id ≡ s.user_id) × (seen.epoch ≡ s.epoch))
    kept : lookup (user_key id) r.1 ≡ lookup (user_key id) m

  slide-IsTouched :
      (token id : Str) (s : Session) (m : MemStore)
      → IsTouched s id m (slide cookies sessions token later s m)
  unfolding slide write Bucket.set Memory.set
  slide-IsTouched token id s m =
      elim (Option-cases (cookies.plus_seconds later sessions.ttl_seconds)) [
        | inl n ↦ rw n (record { answered = inl (out_of_range, refl); kept = refl })
        | inr (t, e) ↦
            let seen : Session = record s { last_seen_at = later; expires_at = t } in
            elim (Option-cases (cookies.to_vec seen)) [
              | inl n ↦
                  rw (e, n)
                    (record { answered = inl (malformed (codes "encode"), refl); kept = refl })
              | inr (json, w) ↦
                  rw (e, w)
                    record {
                      answered = inr (seen, refl, refl, refl);
                      kept =
                          lookup-insert_other (session_key token) (user_key id) (bytes json) m
                            (session-user token id);
                    }
            ]
      ]

  touch-IsTouched :
      (cookie token signature id : Str) (s : Session) (m : MemStore)
      → split_once b'.' cookie ≡ some (token, signature)
      → read cookies sessions token m ≡ (ok s, m)
      → IsTouched s id m (touch cookies sessions cookie now later m)
  unfolding touch load unexpired drop_session Bucket.delete Memory.delete
  touch-IsTouched cookie token signature id s m split found =
      elim (Bool-cases (verify_signature cookies sessions token signature)) [
        | inr bad ↦
            rw (split, bad) (record { answered = inl (signature_mismatch, refl); kept = refl })
        | inl good ↦ elim (Bool-cases (ltb s.expires_at now)) [
          | inl late ↦
              rw (split, good, found, late)
                record {
                  answered = inl (not_found, refl);
                  kept =
                      lookup-remove_other (session_key token) (user_key id) m
                        (session-user token id);
                }
          | inr fresh ↦ rw (split, good, found, fresh) (slide-IsTouched token id s m)
        ]
      ]

read_outcome :
    (cookies : SessionCodec) (m n : MemStore) (r : Result StoreError (Option Str))
    → (after
        (λ found. require_some not_found found >>= λ json.
          require_some (malformed (codes "decode")) (cookies.from_slice json))
        (from_store {E = SessionError} r, n)).0
      ≡ (after
          (λ found. require_some not_found found >>= λ json.
            require_some (malformed (codes "decode")) (cookies.from_slice json))
          (from_store {E = SessionError} r, m)).0
read_outcome cookies m n (err e) = refl
read_outcome cookies m n (ok none) = refl
read_outcome cookies m n (ok (some json)) = elim (Option-cases (cookies.from_slice json)) [
  | inl e ↦ rw e refl
  | inr (s, e) ↦ rw e refl
]

-- A read of a session depends on its key only.
read-same :
    (cookies : SessionCodec) (sessions : SessionStore) (token : Str) (m n : MemStore) (s : Session)
    → lookup (session_key token) n ≡ lookup (session_key token) m
    → read cookies sessions token m ≡ (ok s, m)
    → read cookies sessions token n ≡ (ok s, n)
unfolding read Bucket.get Bucket.restored Memory.get
read-same cookies sessions token m n s same found =
    reading-run (read cookies sessions token) n (ok s) (read-IsReading cookies sessions token) (
      ap
        (λ o.
          (after
            (λ found. require_some not_found found >>= λ json.
              require_some (malformed (codes "decode")) (cookies.from_slice json))
            (from_store {E = SessionError} (restored [] (get_value (session_key token) o)), n)).0)
        same
      ∙ read_outcome cookies m n
          (restored [] (get_value (session_key token) (lookup (session_key token) m)))
      ∙ ap (λ r. r.0) found)

module _ (codec : AuthCodec) (cookies : SessionCodec) (sessions : SessionStore)
    (now later : ℕ) where
  user-read :
      (id other : Str) (m : MemStore) (h : Assoc Str) (user : User)
      → other ≡ id
      → IsStored codec id m h user
      → get_user_by_id codec other m ≡ (ok user, m)
  unfolding get_user_by_id
  user-read id other m h user same s = rw same (rw (stored-read codec id m h user s) refl)

  -- A session with another epoch than its user has.
  stale-refused :
      (cookie id : Str) (s : Session) (m : MemStore) (h : Assoc Str) (user : User)
      → IsTouched cookies sessions now later s id m (touch cookies sessions cookie now later m)
      → IsStored codec id m h user
      → s.user_id ≡ id
      → (s.epoch == user.session_epoch) ≡ false
      → (reason : Refusal) × ((session_context codec cookies now later sessions cookie m).0
          ≡ err (unauthorized reason))
        × ((granting_user codec cookies now later sessions cookie m).0 ≡ err (unauthorized reason))
  unfolding session_context granting_user
  stale-refused cookie id s m h user touched stored own stale =
      let n = (touch cookies sessions cookie now later m).1 in
      elim (touched.answered) [
        | inl (e, bad) ↦ (invalid_session, rw bad refl, rw bad refl)
        | inr (seen, good, same_user, same_epoch) ↦
            let at_hand =
              user-read id seen.user_id n h user (same_user ∙ own)
                (moved-IsStored codec id m n h user touched.kept stored) in
            let differs : (seen.epoch == user.session_epoch) ≡ false = rw same_epoch stale in
            (
              session_revoked,
              rw good (rw at_hand (rw differs refl)),
              rw good (rw at_hand (rw differs refl)),
            )
      ]

  by_cookie :
      (parts : Parts) (cookie : Str) (m : MemStore)
      → parts.authorization ≡ none
      → extract_session_cookie parts ≡ some cookie
      → from_request_parts codec cookies now later (some sessions) parts m
        ≡ session_context codec cookies now later sessions cookie m
  unfolding from_request_parts header_context cookie_context
  by_cookie parts cookie m no_header at_hand =
      ap (λ a. header_context codec cookies now later (some sessions) parts a m) no_header
      ∙ ap (λ c. cookie_context codec cookies now later (some sessions) c m) at_hand

  -- After a user has signed out everywhere, which raises the epoch of the record by one and ends well,
  -- every session that bears the epoch of before is refused, both by the API and where a browser grants
  -- an OAuth authorization, at any time.
  pub bump_session_epoch-refused :
      (parts : Parts) (cookie token signature id : Str) (s : Session) (user : User) (m : MemStore)
      (h : Assoc Str)
      → parts.authorization ≡ none
      → extract_session_cookie parts ≡ some cookie
      → split_once b'.' cookie ≡ some (token, signature)
      → read cookies sessions token m ≡ (ok s, m)
      → IsStored codec id m h user
      → s.user_id ≡ id
      → s.epoch ≡ user.session_epoch
      → user.session_epoch < max_i64
      → (after : MemStore) × (bump_session_epoch codec id m ≡ (ok (user.session_epoch + 1), after))
        × (reason : Refusal) × ((from_request_parts codec cookies now later
              (some sessions)
              parts
              after).0
            ≡ err (unauthorized reason))
        × ((resolve_session_user codec cookies now later (some sessions) parts after).0 ≡ ok none)
  unfolding resolve_session_user
  bump_session_epoch-refused parts cookie token signature id s user m h no_header at_hand split
        found stored own stamped fits =
      let (after, h', run, raised, only) =
        bump_session_epoch-IsStored codec id m h user stored fits in
      let kept =
        read-same cookies sessions token m after s
          (only (session_key token)
            (str_eq_comm (user_key id) (session_key token) ∙ session-user token id))
          found in
      let touched =
        touch-IsTouched cookies sessions now later cookie token signature id s after split kept in
      let differs : (s.epoch == user.session_epoch + 1) ≡ false = rw stamped (ground arith) in
      let (reason, refused, ungranted) =
        stale-refused cookie id s after h' (record user { session_epoch = user.session_epoch + 1 })
          touched raised own differs in
      (
        after,
        run,
        reason,
        ap (λ r. r.0) (by_cookie parts cookie after no_header at_hand) ∙ refused,
        rw (at_hand, resolve_session_user)
            (attempt-none (granting_user codec cookies now later sessions cookie after) ungranted),
      )
