-- ===== src/Oauth/Records/Written.antt =====
-- crates/wm-host/src/mcp_oauth.rs: a record that `write_json_hash` wrote is read back.
use wiremirage.Prelude.Text.{Str, codes, str_eq}
use wiremirage.Prelude.Assoc.{Assoc, lookup, insert, lookup-insert_self}
use wiremirage.Prelude.{
  false, Option, none, some, Result, ok, err, ◌≡◌, refl, ap, ◌∙◌, inl, inr, Result-cases,
  Option-cases, sym, subst, [],
}
use wiremirage.Store.{MemStore, hash}
use wiremirage.Store.Memory
use wiremirage.Store.Memory.{hash_value}
use wiremirage.Store.Bucket
use wiremirage.Store.Action.{Action, after, require_some, hash_get}
use wiremirage.Store.Action.{from_store}
use wiremirage.Store.Reads.{IsReading, bind-IsReading}
use wiremirage.Store.Keeps.{Keeps, bind-Keeps, hash_set-Keeps, require_some-Keeps}
use wiremirage.Oauth.{oauth_error, malformed, Json}
use wiremirage.Oauth.Records.{write_json_hash, parsed_json, read_json_hash}

-- serde_json reads what it wrote.
abbrev pub IsJson : {A : Type 0} → Json A → Type 0
IsJson {A} json =
    (a : A) → (bytes : Str) × (json.to_vec a ≡ some bytes) × (json.from_slice bytes ≡ some a)

-- What the store has under the key.
abbrev pub Reads : {A : Type 0} → Json A → Str → MemStore → A → Type 0
Reads json key m a = (read_json_hash json key m).0 ≡ ok (some a)

after-same :
    {E A B : Type 0} (m n : MemStore) (f : A → Action E B) (r : Result E A)
    → ((x : A) → (f x n).0 ≡ (f x m).0)
    → (after f (r, n)).0 ≡ (after f (r, m)).0
after-same m n f (ok x) same = same x
after-same m n f (err e) same = refl

module _ {A : Type 0} (json : Json A) where
  parsed_json-same :
      (m n : MemStore) (o : Option Str) → (parsed_json json o n).0 ≡ (parsed_json json o m).0
  unfolding parsed_json
  parsed_json-same m n none = refl
  parsed_json-same m n (some bytes) = elim (Option-cases (json.from_slice bytes)) [
    | inl missing ↦ rw (missing, parsed_json) refl
    | inr (a, found) ↦ rw (found, parsed_json) refl
  ]

  parsed_json-IsReading : (o : Option Str) → IsReading (parsed_json json o)
  unfolding parsed_json
  parsed_json-IsReading none m = refl
  parsed_json-IsReading (some bytes) m = elim (Option-cases (json.from_slice bytes)) [
    | inl missing ↦ rw (missing, parsed_json) refl
    | inr (a, found) ↦ rw (found, parsed_json) refl
  ]

module _ {A : Type 0} (json : Json A) (key : Str) where
  pub read_json_hash-IsReading : IsReading (read_json_hash json key)
  unfolding read_json_hash
  read_json_hash-IsReading =
      bind-IsReading (hash_get key (codes "data")) _ (λ m. refl) (parsed_json-IsReading json)

  pub Reads-moved :
      (a : A) (m n : MemStore)
      → lookup key n ≡ lookup key m
      → Reads json key m a
      → Reads json key n a
  unfolding read_json_hash Bucket.hash_get Bucket.restored Memory.hash_get
  Reads-moved a m n same read =
      rw (same, Memory.hash_get)
        (after-same m n (parsed_json json) (hash_get ⦃from = oauth_error⦄ key (codes "data") m).0
            (parsed_json-same json m n)
          ∙ read)

  inserted-Reads :
      (a : A) (bytes : Str) (h : Assoc Str) (m : MemStore)
      → json.from_slice bytes ≡ some a
      → Reads json key (insert key (hash (insert (codes "data") bytes h)) m) a
  unfolding read_json_hash parsed_json Bucket.hash_get Bucket.restored Memory.hash_get hash_value
  inserted-Reads a bytes h m decoded =
      rw
        (
          lookup-insert_self key (hash (insert (codes "data") bytes h)) m,
          Memory.hash_get,
          hash_value,
          lookup-insert_self (codes "data") bytes h,
          decoded,
          parsed_json,
        )
        refl

  -- A record that was written is read back.
  pub write_json_hash-Reads :
      (a : A) (m n : MemStore)
      → IsJson json
      → write_json_hash json key a m ≡ (ok tt, n)
      → Reads json key n a
  unfolding write_json_hash Bucket.hash_set Bucket.answer Bucket.restored Memory.hash_set
  write_json_hash-Reads a m n laws written =
      let (bytes, encoded, decoded) = laws a in
      elim (Result-cases (hash_value key (lookup key m))) [
        | inl (e, refused) ↦
            let failed : (write_json_hash json key a m).0
                ≡ from_store ⦃from = oauth_error⦄ (Bucket.restored [] (err e)) =
              rw (encoded, refused, Memory.hash_set) refl in
            let seen : ok tt ≡ from_store ⦃from = oauth_error⦄ (Bucket.restored [] (err e)) =
              sym (ap (λ r. r.0) written) ∙ failed in
            cc seen
        | inr (h, held) ↦
            let done : write_json_hash json key a m
                ≡ (ok tt, insert key (hash (insert (codes "data") bytes h)) m) =
              rw (encoded, held, Memory.hash_set) refl in
            subst (λ s. Reads json key s a) (ap (λ r. r.1) (sym done ∙ written))
              (inserted-Reads a bytes h m decoded)
      ]

  pub write_json_hash-Keeps :
      (a : A) (j : Str) → str_eq key j ≡ false → Keeps j (write_json_hash json key a)
  unfolding write_json_hash
  write_json_hash-Keeps a j apart =
      bind-Keeps j (require_some (malformed (codes "encode JSON")) (json.to_vec a)) _
        (require_some-Keeps j (malformed (codes "encode JSON")) (json.to_vec a))
        λ bytes. hash_set-Keeps oauth_error key (codes "data") bytes j apart
