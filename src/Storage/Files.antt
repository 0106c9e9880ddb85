-- ===== src/Storage/Files.antt =====
-- The files of internal/storage/store.go: `UpsertFile`, `GetFileByPath`, `GetFileByDriveID`,
-- `DeleteFile` and `ListFilesByPrefix`.
pub mod Kept
pub mod Found
use googlysync.Prelude.{
  ℕ, suc, Bool, ◌≡◌, Option, none, some, List, [], ◌∷◌, ◌++◌, if◌then◌else◌, Str, lit, is_empty, ℤ,
  pos, negsuc, Result, ok, err, ◌>>=◌, Time, or_now,
}
use googlysync.Storage.Sql.{
  Value, text, integer, Column, files, Select, Engine, upsert, insert, update_key, delete_key,
  delete_files, backslash, is_special,
}
use googlysync.Storage.Records.{guarded, scan_row, scan_rows}
use googlysync.Storage.Times.{unix_time, from_unix, bool_to_int, int_to_bool}
use googlysync.Storage.Prefixes.{under_prefix}

pub record FileRecord : Type 0 where
  pub id : Str
  pub account_id : Str
  pub path : Str
  pub drive_id : Str
  pub etag : Str
  pub checksum : Str
  pub size : ℤ
  pub modified_at : Time
  pub created_at : Time

abbrev pub file_columns : List Column
file_columns =
    Column.id ∷ Column.account_id ∷ Column.path ∷ Column.drive_id ∷ Column.etag ∷ Column.checksum
    ∷ Column.size ∷ Column.modified_at ∷ Column.created_at ∷ []

abbrev pub file_sets : List Column
file_sets =
    Column.account_id ∷ Column.path ∷ Column.drive_id ∷ Column.etag ∷ Column.checksum ∷ Column.size
    ∷ Column.modified_at ∷ []

abbrev pub stamp_file : FileRecord → Time → FileRecord
stamp_file f now = record f {
  created_at = or_now f.created_at now;
  modified_at = or_now f.modified_at now;
}

abbrev pub file_args : FileRecord → List Value
file_args f =
    text f.id
    ∷ text f.account_id
    ∷ text f.path
    ∷ text f.drive_id
    ∷ text f.etag
    ∷ text f.checksum
    ∷ integer f.size
    ∷ integer (unix_time f.modified_at)
    ∷ integer (unix_time f.created_at)
    ∷ []

unfoldable pub scan_file : List Value → Result FileRecord
scan_file
      (text a
        ∷ text b
        ∷ text c
        ∷ text d
        ∷ text e
        ∷ text f
        ∷ integer g
        ∷ integer h
        ∷ integer i
        ∷ []) =
    ok (record {
      id = a;
      account_id = b;
      path = c;
      drive_id = d;
      etag = e;
      checksum = f;
      size = g;
      modified_at = from_unix h;
      created_at = from_unix i;
    })
scan_file vs = err (lit "sql: Scan error")

module _ (sql : Engine) where
  open sql use {Db, exec, query_key, query_one, query_list}

  unfoldable pub upsert_file : Option FileRecord → Time → Db → Db × Option Str
  upsert_file none now db = (db, none)
  upsert_file (some f) now db =
      guarded
        ((is_empty f.id, lit "file id cannot be empty")
          ∷ (is_empty f.account_id, lit "file account_id cannot be empty")
          ∷ (is_empty f.path, lit "file path cannot be empty")
          ∷ (is_empty f.drive_id, lit "file drive_id cannot be empty")
          ∷ [])
        db (exec (upsert files file_columns (file_args (stamp_file f now)) file_sets) db)

  unfoldable pub get_file_by_path : Str → Str → Db → Result (Option FileRecord)
  get_file_by_path account_id path db = do
    row ←
        query_one files file_columns ((Column.account_id, account_id) ∷ (Column.path, path) ∷ []) db
    scan_row scan_file row

  unfoldable pub get_file_by_drive_id : Str → Str → Db → Result (Option FileRecord)
  get_file_by_drive_id account_id drive_id db = do
    row ←
        query_one files file_columns
          ((Column.account_id, account_id) ∷ (Column.drive_id, drive_id) ∷ []) db
    scan_row scan_file row

  unfoldable pub delete_file : Str → Str → Db → Db × Option Str
  delete_file account_id path db =
      exec (delete_files ((Column.account_id, account_id) ∷ (Column.path, path) ∷ [])) db

  unfoldable pub list_files_by_prefix : Str → Str → ℤ → Db → Result (List FileRecord)
  list_files_by_prefix account_id prefix limit db = do
    rows ← query_list (under_prefix files file_columns account_id prefix limit) db
    scan_rows scan_file rows
