-- ===== src/Auth/Run.antt =====
-- The definitions that a test of users, tokens and sessions runs: `unfolding authority` opens them all.
use wiremirage.Prelude.Ascii.{to_lower}
use wiremirage.Prelude.Blank.{trim, drop_space, pieces_from, split_whitespace}
use wiremirage.Prelude.Split.{join, split, split_once}
use wiremirage.Store.Runs.{removed}
use wiremirage.Registry.Run.{everything}
use wiremirage.Store.Bucket
use wiremirage.Auth.{normalize_email}
use wiremirage.Auth.Records
use wiremirage.Auth.Records.{
  present, identifier, epoch_number, decode_epoch, some_time, decode_user, optional_ts,
  decode_token,
}
use wiremirage.Auth.Stored.{
  user_key, by_email_key, by_handle_key, identity_key, token_key, by_hash_key, token_name_key,
  token_owner_key, with_email, read_user_by_id, read_token_by_id, settle_index, indexed_user,
  heal_index, scan_users, find_user_by_email,
}
use wiremirage.Auth.Users.{
  as_u64, sync_admin, write_user_fields, store_user, write_new_user, any_user_exists, create_user,
  get_user_by_id, get_user_by_email, read_users, list_users, count_admins, upsert_local_user,
  backfill_email, refresh_email, returning_user, linked_user, link_user, upsert_oauth_user,
  set_user_admin, bump_session_epoch,
}
use wiremirage.Auth.Tokens.{
  delete_token, dropped, expiry, write_expiry, write_token_fields, store_token, write_new_token,
  create_token, named_token, get_token_by_name, read_tokens, list_tokens_for, write_token_name,
  rename_other, rename_token, revoke_token_by_name, drop_token, drop_user, delete_user,
}
use wiremirage.Auth.Tokens.Bootstrap.{adopt_record, adopt_legacy, make_admin, bootstrap_admin}
use wiremirage.Auth.Access.{access_key, read_json, load_access_token}
use wiremirage.Auth.Authenticate.{
  has_expired, owner_context, token_context, hashed_token, authenticate_wmt, access_context,
  authenticate_wmm, authenticate,
}

-- Everything.
unfoldable pub authority : Unit {0}
unfolding to_lower trim drop_space pieces_from split_whitespace join split split_once removed
    everything normalize_email Records.utf8 Records.parse_ts present identifier epoch_number
    decode_epoch some_time decode_user optional_ts decode_token user_key by_email_key by_handle_key
    identity_key token_key by_hash_key token_name_key token_owner_key with_email read_user_by_id
    read_token_by_id settle_index indexed_user heal_index scan_users find_user_by_email as_u64
    sync_admin write_user_fields store_user write_new_user any_user_exists create_user
    get_user_by_id get_user_by_email read_users list_users count_admins upsert_local_user
    backfill_email refresh_email returning_user linked_user link_user upsert_oauth_user
    set_user_admin bump_session_epoch delete_token dropped expiry write_expiry write_token_fields
    store_token write_new_token create_token named_token get_token_by_name read_tokens
    list_tokens_for write_token_name rename_other rename_token revoke_token_by_name drop_token
    drop_user delete_user adopt_record adopt_legacy make_admin bootstrap_admin access_key read_json
    load_access_token has_expired owner_context token_context hashed_token authenticate_wmt
    access_context authenticate_wmm authenticate Bucket.set_if_absent Bucket.hash_get
authority = tt
