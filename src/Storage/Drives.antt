-- ===== src/Storage/Drives.antt =====
-- The shared drives of internal/storage/store.go: `UpsertSharedDrive` and `ListSharedDrives`.
use googlysync.Prelude.{
  Option, none, some, List, [], ◌∷◌, Str, lit, is_empty, Result, ok, err, ◌>>=◌, Time, or_now,
}
use googlysync.Storage.Sql.{Value, text, integer, Column, shared_drives, Select, Engine, upsert}
use googlysync.Storage.Records.{guarded, scan_rows}
use googlysync.Storage.Times.{unix_time, from_unix}

pub record SharedDrive : Type 0 where
  pub id : Str
  pub name : Str
  pub created_at : Time
  pub updated_at : Time

abbrev pub drive_columns : List Column
drive_columns = Column.id ∷ Column.name ∷ Column.created_at ∷ Column.updated_at ∷ []

abbrev pub drive_sets : List Column
drive_sets = Column.name ∷ Column.updated_at ∷ []

abbrev pub stamp_drive : SharedDrive → Time → SharedDrive
stamp_drive d now = record d {
  created_at = or_now d.created_at now;
  updated_at = or_now d.updated_at now;
}

abbrev pub drive_args : SharedDrive → List Value
drive_args d =
    text d.id
    ∷ text d.name
    ∷ integer (unix_time d.created_at)
    ∷ integer (unix_time d.updated_at)
    ∷ []

unfoldable pub scan_drive : List Value → Result SharedDrive
scan_drive (text a ∷ text b ∷ integer c ∷ integer d ∷ []) =
    ok (record { id = a; name = b; created_at = from_unix c; updated_at = from_unix d })
scan_drive vs = err (lit "sql: Scan error")

abbrev pub all_drives : Select
all_drives = record {
  table = shared_drives;
  columns = drive_columns;
  conditions = [];
  pattern = none;
  order = Column.name;
  limit = none;
}

module _ (sql : Engine) where
  open sql use {Db, exec, query_key, query_one, query_list}

  unfoldable pub upsert_shared_drive : Option SharedDrive → Time → Db → Db × Option Str
  upsert_shared_drive none now db = (db, none)
  upsert_shared_drive (some d) now db =
      guarded
        ((is_empty d.id, lit "shared_drive id cannot be empty")
          ∷ (is_empty d.name, lit "shared_drive name cannot be empty")
          ∷ [])
        db
        (exec (upsert shared_drives drive_columns (drive_args (stamp_drive d now)) drive_sets) db)

  unfoldable pub list_shared_drives : Db → Result (List SharedDrive)
  list_shared_drives db = do rows ← query_list all_drives db; scan_rows scan_drive rows
