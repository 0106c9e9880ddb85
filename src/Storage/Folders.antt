-- ===== src/Storage/Folders.antt =====
-- The folders of internal/storage/store.go: `UpsertFolder` and `ListFoldersByPrefix`.
pub mod Found
use googlysync.Prelude.{
  Option, none, some, List, [], ◌∷◌, Str, lit, is_empty, ℤ, Result, ok, err, ◌>>=◌, Time, or_now,
}
use googlysync.Storage.Sql.{Value, text, integer, Column, folders, Engine, upsert}
use googlysync.Storage.Records.{guarded, scan_rows}
use googlysync.Storage.Times.{unix_time, from_unix}
use googlysync.Storage.Prefixes.{under_prefix}

pub record Folder : Type 0 where
  pub id : Str
  pub account_id : Str
  pub path : Str
  pub drive_id : Str
  pub parent_id : Str
  pub modified_at : Time
  pub created_at : Time

abbrev pub folder_columns : List Column
folder_columns =
    Column.id ∷ Column.account_id ∷ Column.path ∷ Column.drive_id ∷ Column.parent_id
    ∷ Column.modified_at ∷ Column.created_at ∷ []

abbrev pub folder_sets : List Column
folder_sets =
    Column.account_id ∷ Column.path ∷ Column.drive_id ∷ Column.parent_id ∷ Column.modified_at ∷ []

abbrev pub stamp_folder : Folder → Time → Folder
stamp_folder f now = record f {
  created_at = or_now f.created_at now;
  modified_at = or_now f.modified_at now;
}

abbrev pub folder_args : Folder → List Value
folder_args f =
    text f.id
    ∷ text f.account_id
    ∷ text f.path
    ∷ text f.drive_id
    ∷ text f.parent_id
    ∷ integer (unix_time f.modified_at)
    ∷ integer (unix_time f.created_at)
    ∷ []

unfoldable pub scan_folder : List Value → Result Folder
scan_folder (text a ∷ text b ∷ text c ∷ text d ∷ text e ∷ integer f ∷ integer g ∷ []) = ok (record {
  id = a;
  account_id = b;
  path = c;
  drive_id = d;
  parent_id = e;
  modified_at = from_unix f;
  created_at = from_unix g;
})
scan_folder vs = err (lit "sql: Scan error")

module _ (sql : Engine) where
  open sql use {Db, exec, query_key, query_one, query_list}

  unfoldable pub upsert_folder : Option Folder → Time → Db → Db × Option Str
  upsert_folder none now db = (db, none)
  upsert_folder (some f) now db =
      guarded
        ((is_empty f.id, lit "folder id cannot be empty")
          ∷ (is_empty f.account_id, lit "folder account_id cannot be empty")
          ∷ (is_empty f.path, lit "folder path cannot be empty")
          ∷ (is_empty f.drive_id, lit "folder drive_id cannot be empty")
          ∷ [])
        db (exec (upsert folders folder_columns (folder_args (stamp_folder f now)) folder_sets) db)

  unfoldable pub list_folders_by_prefix : Str → Str → ℤ → Db → Result (List Folder)
  list_folders_by_prefix account_id prefix limit db = do
    rows ← query_list (under_prefix folders folder_columns account_id prefix limit) db
    scan_rows scan_folder rows
