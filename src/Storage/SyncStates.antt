-- ===== src/Storage/SyncStates.antt =====
-- The sync metadata of internal/storage/store.go: `UpsertSyncState` and `GetSyncState`.
pub mod Kept
use googlysync.Prelude.{
  ℕ, suc, Bool, ◌≡◌, Option, none, some, List, [], ◌∷◌, ◌++◌, if◌then◌else◌, Str, lit, is_empty, ℤ,
  pos, negsuc, Result, ok, err, ◌>>=◌, Time, or_now,
}
use googlysync.Storage.Sql.{
  Value, text, integer, Column, sync_state, Select, Engine, upsert, insert, update_key, delete_key,
  delete_files, backslash, is_special,
}
use googlysync.Storage.Records.{guarded, scan_row, scan_rows}
use googlysync.Storage.Times.{unix_time, from_unix, bool_to_int, int_to_bool}

pub record SyncState : Type 0 where
  pub account_id : Str
  pub start_page_token : Str
  pub last_sync_at : Time
  pub last_error : Str
  pub paused : Bool
  pub updated_at : Time

abbrev pub state_columns : List Column
state_columns =
    Column.account_id ∷ Column.start_page_token ∷ Column.last_sync_at ∷ Column.last_error
    ∷ Column.paused ∷ Column.updated_at ∷ []

abbrev pub state_sets : List Column
state_sets =
    Column.start_page_token ∷ Column.last_sync_at ∷ Column.last_error ∷ Column.paused
    ∷ Column.updated_at ∷ []

abbrev pub stamp_state : SyncState → Time → SyncState
stamp_state s now = record s { updated_at = or_now s.updated_at now }

abbrev pub state_args : SyncState → List Value
state_args s =
    text s.account_id
    ∷ text s.start_page_token
    ∷ integer (unix_time s.last_sync_at)
    ∷ text s.last_error
    ∷ integer (bool_to_int s.paused)
    ∷ integer (unix_time s.updated_at)
    ∷ []

unfoldable pub scan_state : List Value → Result SyncState
scan_state (text a ∷ text b ∷ integer c ∷ text d ∷ integer e ∷ integer f ∷ []) = ok (record {
  account_id = a;
  start_page_token = b;
  last_sync_at = from_unix c;
  last_error = d;
  paused = int_to_bool e;
  updated_at = from_unix f;
})
scan_state vs = err (lit "sql: Scan error")

module _ (sql : Engine) where
  open sql use {Db, exec, query_key, query_one, query_list}

  unfoldable pub upsert_sync_state : Option SyncState → Time → Db → Db × Option Str
  upsert_sync_state none now db = (db, none)
  upsert_sync_state (some s) now db =
      guarded ((is_empty s.account_id, lit "sync_state account_id cannot be empty") ∷ []) db
        (exec (upsert sync_state state_columns (state_args (stamp_state s now)) state_sets) db)

  unfoldable pub get_sync_state : Str → Db → Result (Option SyncState)
  get_sync_state account_id db = do
    row ← query_key sync_state state_columns account_id db
    scan_row scan_state row
