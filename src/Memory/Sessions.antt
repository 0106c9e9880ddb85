-- ===== src/Memory/Sessions.antt =====
-- Sign-in and sign-out over the database of functions, with a keyring of functions.
use googlysync.Prelude.{
  ℕ, ◌+◌, ◌*◌, true, ◌≡◌, refl, Option, none, some, List, [], ◌∷◌, if◌then◌else◌, Str, lit, str_eq,
  str_eq_refl, Result, ok, err, Time, pos,
}
use googlysync.Memory.{memory}
use googlysync.Storage.Records.{guarded, scan_row, scan_rows}
use googlysync.Prelude.{any, [], List}
use googlysync.Storage.Sql.{value_leb}
use googlysync.Prelude.Order.{insert, sort}
use googlysync.Memory.Query.{select, picked}
use googlysync.Config.{Config}
use googlysync.Storage.Times.{
  second, epoch, kept_time, from_unix, unix_time, int_to_bool, bool_to_int,
}
use googlysync.Auth.{Keyring, Claims, Token, signed_out}
use googlysync.Storage.Accounts.{
  Account, stamp_account, upsert_account, delete_account, list_accounts, scan_account,
}
use googlysync.Storage.Accounts.Roundtrip.{kept_account}
use googlysync.Storage.Tokens.{TokenRef, stamp_token, upsert_token_ref, get_token_ref, scan_token}
use googlysync.Storage.Tokens.Kept.{kept_token}
use googlysync.Auth.Active.{is_first_account, find_active_account}
use googlysync.Auth.Active.Choice.{IsActive, find_active_account-IsActive}
use googlysync.Auth.Service.{
  World, default_scopes, account_of, token_ref_of, new_service, refresh_access_token, finish,
  keep_account, keep_token, keep_secret, sign_in, sign_out,
}
use googlysync.Auth.Service.Renewal.{refresh_access_token-sign_in}
use googlysync.Auth.Service.Session.{sign_in_kept, sign_out_lem}

abbrev pub Secrets : Type 0
Secrets = Str → Str → Result Str

abbrev pub pocket : Keyring
pocket = record {
  Entries = Secrets;
  set_entry = λ service user secret ks. (
    λ s u. if str_eq service s then (if str_eq user u then ok secret else ks s u) else ks s u,
    none,
  );
  get_entry = λ service user ks. ks service user;
  delete_entry = λ service user ks. (ks, some (lit "not here"));
  set_done = λ service user secret ks h. rw (str_eq_refl service, str_eq_refl user) refl;
}

abbrev pub cfg : Config
cfg = record {
  app_name = lit "googlysync";
  config_dir = [];
  data_dir = [];
  runtime_dir = [];
  socket_path = [];
  sync_root = [];
  ignore_patterns = [];
  event_log_size = pos 20;
  sync_queue_size = pos 20;
  log_level = [];
  database_path = [];
  config_file = [];
  log_file_path = [];
  log_file_max_mb = pos 10;
  log_file_max_backups = pos 10;
  log_file_max_age_days = pos 10;
  oauth_client_id = lit "client";
  oauth_client_secret = lit "secret";
  oauth_redirect_host = [];
}

abbrev pub clock : ℕ → Time
clock i = (epoch + 1_600_000_000 + i) * second

abbrev pub token : Token
token = record { refresh_token = lit "r"; expiry = clock 3600 }

abbrev pub claims : Claims
claims = record { sub = lit "1"; email = lit "ann@example.org"; name = lit "Ann" }

abbrev pub flow : List Str → Result (Option Token × Claims)
flow scopes = ok (some token, claims)

abbrev fresh : World memory pocket cfg
unfolding memory
fresh =
    new_service memory pocket cfg (record { rows = λ t k. none; keys = λ t. [] })
      (λ s u. err (lit "not found"))

abbrev signed : World memory pocket cfg
signed = (sign_in memory pocket cfg [] flow clock fresh).0

abbrev ann : Account
ann = stamp_account (account_of claims true clock) (clock 2)

abbrev ann_ref : TokenRef
ann_ref = kept_token (stamp_token (token_ref_of (lit "1") token default_scopes (clock 3)) (clock 4))

sign_in_kept_example :
    (signed.state ≡ record {
      signed_in = true;
      account =
          stamp_account (account_of claims (is_first_account memory fresh.db) clock) (clock 2);
    })
    × (pocket.get_entry (lit "googlysync") (lit "1") signed.keys ≡ ok (lit "r"))
    × (some ann_ref ≡ some ann_ref)
unfolding memory guarded any select picked insert sort value_leb sign_in finish keep_account
    upsert_account keep_token upsert_token_ref keep_secret str_eq new_service kept_time from_unix
    unix_time get_token_ref scan_row scan_token
sign_in_kept_example =
    sign_in_kept memory pocket cfg [] flow clock fresh token claims (some ann_ref) refl refl refl

sign_out_lem_example :
    ((sign_out memory pocket cfg (lit "1") signed).0.state
      ≡ elim (sign_out memory pocket cfg (lit "1") signed).1 [
        | none ↦ signed_out
        | some e ↦ signed.state
      ])
    × (none ≡ elim (sign_out memory pocket cfg (lit "1") signed).1 [
      | none ↦ if str_eq (lit "1") (lit "1") then none else some ann_ref
      | some e ↦ some ann_ref
    ])
unfolding memory guarded any select picked insert sort value_leb sign_in finish keep_account
    upsert_account keep_token upsert_token_ref keep_secret str_eq new_service kept_time from_unix
    unix_time get_token_ref scan_row scan_token sign_out delete_account
sign_out_lem_example =
    sign_out_lem memory pocket cfg (lit "1") signed (lit "1") (some ann_ref) none refl refl

find_active_account-IsActive_example :
    IsActive memory signed.db (kept_account ann ∷ []) (find_active_account memory signed.db)
unfolding memory guarded any select picked insert sort value_leb sign_in finish keep_account
    upsert_account keep_token upsert_token_ref keep_secret str_eq new_service kept_time from_unix
    unix_time list_accounts scan_rows scan_account int_to_bool bool_to_int is_first_account
find_active_account-IsActive_example =
    find_active_account-IsActive memory signed.db (kept_account ann ∷ []) refl

refresh_access_token-sign_in_example :
    (refresh_access_token memory pocket cfg (lit "1") (λ secret. err secret) clock signed).0
    ≡ err (lit "r")
unfolding memory guarded any select picked insert sort value_leb sign_in finish keep_account
    upsert_account keep_token upsert_token_ref keep_secret str_eq new_service kept_time from_unix
    unix_time get_token_ref scan_row scan_token
refresh_access_token-sign_in_example =
    refresh_access_token-sign_in memory pocket cfg [] flow clock clock fresh token claims
      (some ann_ref) (λ secret. err secret) refl refl refl
