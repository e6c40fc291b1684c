-- ===== src/Registry/Stored/Groups.antt =====
-- crates/wm-host/src/registry.rs: a group that was written is read back.
use wiremirage.Prelude.Text.{Str, codes, str_eq, str_eq_comm}
use wiremirage.Prelude.Utf8.{following, utf8_from, is_utf8, is_utf8-ascii}
use wiremirage.Prelude.Assoc.{
  Assoc, lookup, insert, remove, lookup-insert_self, lookup-insert_other,
}
use wiremirage.Prelude.Decimal.{print, max_u64}
use wiremirage.Prelude.Decimal.RoundTrip.{IsDigit, print-digits, parse_unsigned-print}
use wiremirage.Prelude.{
  ℕ, ◌<◌, Bool, true, false, some, List, [], ◌∷◌, is_empty, ok, All, ◌≡◌, refl, sym, ap, ◌∙◌, arith,
}
use wiremirage.Store.{MemStore, bytes, member_set}
use wiremirage.Store.Memory
use wiremirage.Store.Memory.{with_member, get_value}
use wiremirage.Registry.Action.{registry_error}
use wiremirage.Registry.{Codec, Group}
use wiremirage.Registry.Records.{
  utf8, required, parsed, parse_ts, transposed, utf8_opt, only_utf8, is_one, flag, decode_group,
}
use wiremirage.Prelude.Utf8.{from_utf8}
use wiremirage.Registry.Names.{named_id, by_name}
use wiremirage.Store.Bucket
use wiremirage.Registry.Laws.{IsCodec, IsText, IsNewGroup}
use wiremirage.Registry.Stored.{
  group_key, by_name_key, group_owner_key, all_groups, write_group_fields, write_group, read_group,
}
use wiremirage.Registry.Stored.Keys.{
  IsUlid, by_name-group, group_owner-group, all-group, by_name-owner, by_name-all, owner-all,
}
use wiremirage.Store.Runs.{set-run, set_add-run, members_kept, members_framed, fields_kept}
use wiremirage.Store.Runs.{Holds, Runs, then-Runs, hash_set-Runs}

digits-ascii : (s : Str) → All IsDigit s → All (λ c. c < 128) s
digits-ascii [] h = tt
digits-ascii (c ∷ s) ((low, high), h) = (omega arith, digits-ascii s h)

pub print-IsText : (n : ℕ) → IsText (print n)
print-IsText n = is_utf8-ascii (print n) (digits-ascii (print n) (print-digits n))

pub flag-IsText : (b : Bool) → IsText (flag b)
unfolding flag is_utf8 utf8_from following
flag-IsText true = refl
flag-IsText false = refl

pub is_one-flag : (b : Bool) → is_one (some (flag b)) ≡ b
unfolding flag is_one str_eq
is_one-flag true = refl
is_one-flag false = refl

module _ (codec : Codec) where
  -- the fields that a write of the group adds
  unfoldable pub group_fields : Group → Assoc Str → Assoc Str
  group_fields group h = insert (codes "callout_enabled") (flag group.callout_enabled) (
      insert (codes "sliding_ttl") (flag group.sliding_ttl) (
        insert (codes "ttl_seconds") (print group.ttl_seconds) (
          insert (codes "owner_id") group.owner_id (
            insert (codes "created_at") (codec.to_rfc3339 group.created_at) (
              insert (codes "implicit") (flag group.implicit)
                (insert (codes "name") group.name (insert (codes "id") group.id h)))))))

  pub write_group_fields-Runs :
      (key : Str) (group : Group)
      → Runs key (group_fields group) (write_group_fields codec key group)
  unfolding write_group_fields group_fields
  write_group_fields-Runs key group =
      let put = hash_set-Runs key in
      then-Runs key (put (codes "id") group.id) (
        then-Runs key (put (codes "name") group.name) (
          then-Runs key (put (codes "implicit") (flag group.implicit)) (
            then-Runs key (put (codes "created_at") (codec.to_rfc3339 group.created_at)) (
              then-Runs key (put (codes "owner_id") group.owner_id) (
                then-Runs key (put (codes "ttl_seconds") (print group.ttl_seconds)) (
                  then-Runs key (put (codes "sliding_ttl") (flag group.sliding_ttl))
                    (put (codes "callout_enabled") (flag group.callout_enabled))))))))

  pub group_fields-not-empty :
      (group : Group) (h : Assoc Str) → is_empty (group_fields group h) ≡ false
  unfolding group_fields insert
  group_fields-not-empty group h = refl

  pub decode_group-fields :
      IsCodec codec
      → (group : Group) → IsNewGroup group
      → decode_group codec (group_fields group []) ≡ ok group
  unfolding decode_group group_fields utf8 required from_utf8 parsed parse_ts transposed utf8_opt
      only_utf8 lookup insert remove str_eq
  decode_group-fields laws group new =
      rw
        (
          new.id_text,
          new.name_text,
          flag-IsText group.implicit,
          laws.time_text group.created_at,
          laws.time_parsed group.created_at new.created,
          new.owner_text,
          print-IsText group.ttl_seconds,
          parse_unsigned-print max_u64 group.ttl_seconds new.ttl_fits,
          flag-IsText group.sliding_ttl,
          flag-IsText group.callout_enabled,
          is_one-flag group.implicit,
          is_one-flag group.sliding_ttl,
          is_one-flag group.callout_enabled,
        )
        (ap (λ o. ok (record group { last_activity_at = o })) (sym new.unused))

-- The store that `write_group` leaves, and the run that gives it.
record HasWritten (codec : Codec) (group : Group) (m : MemStore) : Type 0 where
  result : MemStore
  run : write_group codec group m ≡ (ok tt, result)
  holds : Holds (group_key group.id) result (group_fields codec group [])
  named : lookup (by_name_key group.name) result ≡ some (bytes group.id)

module _ (codec : Codec) (group : Group) (m : MemStore) (ulid : IsUlid group.id) where
  write_group-HasWritten :
      (owned every : List Str)
      → Holds (group_key group.id) m []
      → Memory.set_members m (group_owner_key group.owner_id) ≡ ok owned
      → Memory.set_members m all_groups ≡ ok every
      → HasWritten codec group m
  unfolding write_group
  write_group-HasWritten owned every fresh owner_set all_set =
      let key = group_key group.id in
      let fields = write_group_fields-Runs codec key group m [] fresh in
      let named = insert (by_name_key group.name) (bytes group.id) fields.result in
      let owner_key = group_owner_key group.owner_id in
      let with_owner = insert owner_key (member_set (with_member group.id owned)) named in
      let owner_there : Memory.set_members named owner_key ≡ ok owned =
        members_kept (by_name_key group.name) owner_key (bytes group.id) fields.result
          (by_name-owner group.name group.owner_id)
        ∙ members_framed key owner_key m fields.result fields.frame
            (group_owner-group group.id group.owner_id ulid)
        ∙ owner_set in
      let all_there : Memory.set_members with_owner all_groups ≡ ok every =
        members_kept owner_key all_groups (member_set (with_member group.id owned)) named
          (owner-all group.owner_id)
        ∙ members_kept (by_name_key group.name) all_groups (bytes group.id) fields.result
            (by_name-all group.name)
        ∙ members_framed key all_groups m fields.result fields.frame (all-group group.id ulid)
        ∙ all_set in
      record {
        result = insert all_groups (member_set (with_member group.id every)) with_owner;
        run =
            rw
              (
                fields.run,
                set-run registry_error (by_name_key group.name) group.id fields.result,
                set_add-run registry_error owner_key group.id named owner_there,
                set_add-run registry_error all_groups group.id with_owner all_there,
              )
              refl;
        holds =
            fields_kept all_groups key _ with_owner (all-group group.id ulid)
            ∙ fields_kept owner_key key _ named (group_owner-group group.id group.owner_id ulid)
            ∙ fields_kept (by_name_key group.name) key _ fields.result
                (by_name-group group.id group.name ulid)
            ∙ fields.holds;
        named =
            lookup-insert_other all_groups (by_name_key group.name) _ with_owner
              (str_eq_comm all_groups (by_name_key group.name) ∙ by_name-all group.name)
            ∙ lookup-insert_other owner_key (by_name_key group.name) _ named (
                str_eq_comm owner_key (by_name_key group.name)
                ∙ by_name-owner group.name group.owner_id)
            ∙ lookup-insert_self (by_name_key group.name) (bytes group.id) fields.result;
      }

  -- A new group with the id of a ULID, written to a store that has nothing under its key and sets (or
  -- nothing) under the two indexes of groups, is written without an error, is read back as it was,
  -- and is what its name leads to, if the codec reads what it printed.
  pub write_group-read_group :
      IsCodec codec
      → IsNewGroup group
      → (owned every : List Str) → Holds (group_key group.id) m []
      → Memory.set_members m (group_owner_key group.owner_id) ≡ ok owned
      → Memory.set_members m all_groups ≡ ok every
      → (after : MemStore) × (write_group codec group m ≡ (ok tt, after))
        × (read_group codec group.id after ≡ (ok group, after))
        × (by_name group.name after ≡ (ok (some group.id), after))
  unfolding read_group by_name named_id from_utf8 Bucket.get Bucket.hash_get_all Bucket.restored
      Memory.get get_value
  write_group-read_group laws new owned every fresh owner_set all_set =
      let written = write_group-HasWritten owned every fresh owner_set all_set in
      (
        written.result,
        written.run,
        rw (written.holds) (
            rw (group_fields-not-empty codec group [], decode_group-fields codec laws group new)
              refl),
        rw (written.named) (rw (new.id_text) refl),
      )
