-- ===== src/Session/Logout.antt =====
-- crates/wm-host/src/session.rs: the cookie of a session that was logged out.
use wiremirage.Prelude.Text.{Str, str_eq}
use wiremirage.Prelude.Assoc.{lookup, remove, lookup-remove_self, lookup-remove_other}
use wiremirage.Prelude.Split.{split_once}
use wiremirage.Prelude.{ℕ, some, none, false, ok, err, ◌≡◌, refl, Bool-cases, inl, inr}
use wiremirage.Store.{MemStore}
use wiremirage.Store.Memory
use wiremirage.Store.Memory.{get_value}
use wiremirage.Store.Bucket
use wiremirage.Session.{
  SessionStore, SessionCodec, SessionError, not_found, signature_mismatch, session_key,
  drop_session, delete_by_cookie, verify_signature, read, load, validate, touch,
}

module _ (codec : SessionCodec) (sessions : SessionStore) where
  missing :
      (token : Str) (m : MemStore)
      → lookup (session_key token) m ≡ none
      → read codec sessions token m ≡ (err not_found, m)
  unfolding read Bucket.get Bucket.restored Memory.get get_value
  missing token m gone = rw gone refl

  -- A logout ends well and touches no other key, and from then on every cookie with its token is
  -- refused, by `validate` and by `touch`, at any time, and the store stays as it is.
  pub delete_by_cookie-refused :
      (cookie token signature : Str) (m : MemStore) (other signature' : Str) (now later : ℕ)
      (k : Str)
      → split_once b'.' cookie ≡ some (token, signature)
      → split_once b'.' other ≡ some (token, signature')
      → str_eq (session_key token) k ≡ false
      → (after : MemStore) × (delete_by_cookie cookie m ≡ (ok tt, after))
        × (lookup k after ≡ lookup k m)
        × (e : SessionError) × (validate codec sessions other now after ≡ (err e, after))
        × (touch codec sessions other now later after ≡ (err e, after))
  unfolding delete_by_cookie drop_session validate touch load Bucket.delete Memory.delete
  delete_by_cookie-refused cookie token signature m other signature' now later k split shape apart =
      let after : MemStore = remove (session_key token) m in
      let kept = lookup-remove_other (session_key token) k m apart in
      elim (Bool-cases (verify_signature codec sessions token signature')) [
        | inl good ↦
            let gone = missing token after (lookup-remove_self (session_key token) m) in
            (
              after,
              rw split refl,
              kept,
              not_found,
              rw (shape, good, gone) refl,
              rw (shape, good, gone) refl,
            )
        | inr bad ↦ (
          after,
          rw split refl,
          kept,
          signature_mismatch,
          rw (shape, bad) refl,
          rw (shape, bad) refl,
        )
      ]
