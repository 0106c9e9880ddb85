-- ===== src/Storage/SyncStates/Kept.antt =====
-- What `GetSyncState` of internal/storage/store.go finds after the writes.
use googlysync.Prelude.{◌≡◌, refl, Option, none, some, if◌then◌else◌, Str, str_eq, ok, Time}
use googlysync.Storage.Sql.{text, Column, Row, sync_state, bind, merge_row, Engine}
use googlysync.Storage.Records.{Codec, scan_row, read_row}
use googlysync.Storage.Records.Kept.{load-save, load-delete_account}
use googlysync.Storage.Times.{kept_time, from_unix-unix_time, int_to_bool-bool_to_int}
use googlysync.Storage.Accounts.{delete_account}
use googlysync.Storage.SyncStates.{
  SyncState, state_columns, state_sets, state_args, stamp_state, scan_state, upsert_sync_state,
  get_sync_state,
}

-- The metadata as it reads back.
abbrev pub kept_state : SyncState → SyncState
kept_state s = record s {
  last_sync_at = kept_time s.last_sync_at;
  updated_at = kept_time s.updated_at;
}

-- Each column but the key is replaced, whatever stood in the row.
row_replaced :
    (row : Option Row) (s : SyncState)
    → ((r : Row) → row ≡ some r → r Column.account_id ≡ text s.account_id)
    → read_row scan_state state_columns
        (some (merge_row state_sets row (bind state_columns (state_args s))))
      ≡ ok (some (kept_state s))
unfolding scan_state scan_row
row_replaced none s k = simp (from_unix-unix_time, int_to_bool-bool_to_int)
row_replaced (some r) s k = rw (k r refl) (simp (from_unix-unix_time, int_to_bool-bool_to_int))

state_codec : Codec SyncState
state_codec = record {
  table = sync_state;
  columns = state_columns;
  sets = state_sets;
  key = λ s. s.account_id;
  args = state_args;
  scan = scan_state;
  over = λ old s. kept_state s;
  keyed = λ s. refl;
  merged = λ row s x k h. row_replaced row s k;
}

module _ (sql : Engine) where
  open sql use {Db}

  -- After `UpsertSyncState` has stored an account's sync metadata, `GetSyncState` finds it with its
  -- times cut to seconds, and finds that of other accounts as before; after one that fails, it finds
  -- all of it as before.
  pub get_sync_state-upsert_sync_state :
      (s : SyncState) (now : Time) (db : Db) (j : Str) (before after : Option SyncState)
      → get_sync_state sql j db ≡ ok before
      → get_sync_state sql j (upsert_sync_state sql (some s) now db).0 ≡ ok after
      → after ≡ elim (upsert_sync_state sql (some s) now db).1 [
        | none ↦ if str_eq s.account_id j then some (kept_state (stamp_state s now)) else before
        | some e ↦ before
      ]
  unfolding get_sync_state upsert_sync_state state_codec
  get_sync_state-upsert_sync_state s now db = load-save state_codec sql _ (stamp_state s now) db

  -- The metadata is deleted with its account, and only with it.
  pub get_sync_state-delete_account :
      (id : Str) (db : Db) (j : Str) (before after : Option SyncState)
      → get_sync_state sql j db ≡ ok before
      → get_sync_state sql j (delete_account sql id db).0 ≡ ok after
      → after ≡ elim (delete_account sql id db).1 [
        | none ↦ if str_eq id j then none else before
        | some e ↦ before
      ]
  unfolding get_sync_state delete_account state_codec
  get_sync_state-delete_account id db j before after =
      load-delete_account state_codec sql id j db before after (λ row. refl) refl
