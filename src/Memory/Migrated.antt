-- ===== src/Memory/Migrated.antt =====
-- A sign-in over the database that the migrations leave, with the account `default` of
-- internal/storage/migrations/00002_sync_state.sql.
use googlysync.Prelude.{false, true, ◌≡◌, refl, some, none, [], lit, str_eq, any, err}
use googlysync.Memory.{Store, memory}
use googlysync.Memory.Query.{select, picked}
use googlysync.Memory.Sessions.{pocket, cfg, clock, token, claims, flow}
use googlysync.Prelude.Order.{insert, sort}
use googlysync.Storage.Sql.{value_leb}
use googlysync.Storage.Records.{guarded, scan_row}
use googlysync.Storage.Times.{kept_time, from_unix, unix_time, int_to_bool, bool_to_int}
use googlysync.Storage.Accounts.{Account, stamp_account, upsert_account, get_account, scan_account}
use googlysync.Storage.Accounts.Roundtrip.{kept_account}
use googlysync.Storage.Tokens.{TokenRef, stamp_token, upsert_token_ref, get_token_ref, scan_token}
use googlysync.Storage.Tokens.Kept.{kept_token}
use googlysync.Auth.Service.{
  World, default_scopes, token_ref_of, finish, keep_account, keep_token, keep_secret, sign_in,
  new_service,
}
use googlysync.Auth.Service.Primary.{sign_in_unprimary}

abbrev default_account : Account
default_account = record {
  id = lit "default";
  email = lit "default@local";
  display_name = lit "Default";
  is_primary = true;
  created_at = clock 0;
  updated_at = clock 0;
}

abbrev migrated : World memory pocket cfg
unfolding memory
migrated =
    let empty : Store = record { rows = λ t k. none; keys = λ t. [] } in
    new_service memory pocket cfg (upsert_account memory (some default_account) (clock 0) empty).0
      (λ s u. err (lit "not found"))

abbrev ann_ref : TokenRef
ann_ref = kept_token (stamp_token (token_ref_of (lit "1") token default_scopes (clock 3)) (clock 4))

sign_in_unprimary_example :
    (sign_in memory pocket cfg [] flow clock migrated).0.state.account.is_primary ≡ false
unfolding memory guarded any select picked insert sort value_leb sign_in finish keep_account
    upsert_account keep_token upsert_token_ref keep_secret str_eq new_service kept_time from_unix
    unix_time get_token_ref get_account scan_row scan_token scan_account int_to_bool bool_to_int
sign_in_unprimary_example =
    sign_in_unprimary memory pocket cfg [] flow clock migrated token claims (some ann_ref)
      (lit "default") (kept_account (stamp_account default_account (clock 0))) refl refl refl refl
