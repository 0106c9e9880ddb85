-- ===== src/Storage/Migrations.antt =====
-- internal/storage/migrations: the two files as lists of changes, and the schema that these leave.
pub mod Matches
mod Examples
use googlysync.Prelude.{
  Bool, true, false, ◌≡◌, Option, none, some, List, [], ◌∷◌, ◌++◌, if◌then◌else◌, Str, lit, str_eq,
  pos,
}
use googlysync.Prelude.Dict.{Dict, get, put, delete}
use googlysync.Storage.Sql.{Column, Value, null, text, integer}
use googlysync.Storage.Schema.{
  Kind, Declared, TableSchema, Index, Schema, Change, put_new, drop_indices, extended, on_table,
  renamed, moved_indices, apply, apply_all, no_schema, texts, integers, create_table, add_column,
  create_index, drop_index, drop_table, rename_table, insert_row, fill_rows, copy_rows,
}

abbrev pub optional_text : Column → Declared
optional_text c = record { column = c; kind = texts; required = false; default = null }

abbrev pub text_column : Column → Declared
text_column c = record { column = c; kind = texts; required = true; default = null }

abbrev pub text_default : Column → Str → Declared
text_default c v = record { column = c; kind = texts; required = true; default = text v }

abbrev pub number_column : Column → Declared
number_column c = record { column = c; kind = integers; required = true; default = integer (pos 0) }

abbrev pub files_schema : TableSchema
files_schema = record {
  columns =
      optional_text Column.id
      ∷ text_column Column.path
      ∷ text_column Column.drive_id
      ∷ optional_text Column.etag
      ∷ optional_text Column.checksum
      ∷ number_column Column.size
      ∷ number_column Column.modified_at
      ∷ number_column Column.created_at
      ∷ [];
  key = Column.id;
  falls = false;
}

abbrev pub path_index : Change
path_index =
    create_index (lit "idx_files_path")
      (record { is_unique = true; table = lit "files"; columns = Column.path ∷ [] })

-- 00001_init.sql
abbrev pub up_init : List Change
up_init = create_table (lit "files") files_schema ∷ path_index ∷ []

abbrev pub down_init : List Change
down_init = drop_index (lit "idx_files_path") ∷ drop_table (lit "files") ∷ []

abbrev pub accounts_schema : TableSchema
accounts_schema = record {
  columns =
      optional_text Column.id
      ∷ text_column Column.email
      ∷ text_default Column.display_name []
      ∷ number_column Column.is_primary
      ∷ number_column Column.created_at
      ∷ number_column Column.updated_at
      ∷ [];
  key = Column.id;
  falls = false;
}

abbrev pub token_refs_schema : TableSchema
token_refs_schema = record {
  columns =
      optional_text Column.account_id
      ∷ text_column Column.key_id
      ∷ text_default Column.token_type []
      ∷ text_default Column.scope []
      ∷ number_column Column.expiry
      ∷ number_column Column.updated_at
      ∷ [];
  key = Column.account_id;
  falls = true;
}

abbrev pub sync_state_schema : TableSchema
sync_state_schema = record {
  columns =
      optional_text Column.account_id
      ∷ text_default Column.start_page_token []
      ∷ number_column Column.last_sync_at
      ∷ text_default Column.last_error []
      ∷ number_column Column.paused
      ∷ number_column Column.updated_at
      ∷ [];
  key = Column.account_id;
  falls = true;
}

abbrev pub pending_ops_schema : TableSchema
pending_ops_schema = record {
  columns =
      optional_text Column.id
      ∷ text_column Column.account_id
      ∷ text_column Column.path
      ∷ text_default Column.drive_id []
      ∷ text_column Column.op_type
      ∷ text_default Column.state (lit "queued")
      ∷ number_column Column.retry_count
      ∷ text_default Column.last_error []
      ∷ number_column Column.created_at
      ∷ number_column Column.updated_at
      ∷ [];
  key = Column.id;
  falls = true;
}

abbrev pub folders_schema : TableSchema
folders_schema = record {
  columns =
      optional_text Column.id
      ∷ text_column Column.account_id
      ∷ text_column Column.path
      ∷ text_column Column.drive_id
      ∷ text_default Column.parent_id []
      ∷ number_column Column.modified_at
      ∷ number_column Column.created_at
      ∷ [];
  key = Column.id;
  falls = true;
}

abbrev pub shared_drives_schema : TableSchema
shared_drives_schema = record {
  columns =
      optional_text Column.id
      ∷ text_column Column.name
      ∷ number_column Column.created_at
      ∷ number_column Column.updated_at
      ∷ [];
  key = Column.id;
  falls = false;
}

-- 00002_sync_state.sql
abbrev pub up_sync : List Change
up_sync =
    create_table (lit "accounts") accounts_schema
    ∷ create_index (lit "idx_accounts_email")
        (record { is_unique = true; table = lit "accounts"; columns = Column.email ∷ [] })
    ∷ insert_row (lit "accounts") (
        (Column.id, text (lit "default"))
        ∷ (Column.email, text (lit "default@local"))
        ∷ (Column.display_name, text (lit "Default"))
        ∷ (Column.is_primary, integer (pos 1))
        ∷ [])
    ∷ add_column (lit "files") (text_default Column.account_id (lit "default"))
    ∷ fill_rows (lit "files") Column.account_id (text (lit "default"))
    ∷ drop_index (lit "idx_files_path")
    ∷ create_index (lit "idx_files_account_path") (record {
      is_unique = true;
      table = lit "files";
      columns = Column.account_id ∷ Column.path ∷ [];
    })
    ∷ create_index (lit "idx_files_account_drive_id") (record {
      is_unique = false;
      table = lit "files";
      columns = Column.account_id ∷ Column.drive_id ∷ [];
    })
    ∷ create_table (lit "token_refs") token_refs_schema
    ∷ create_table (lit "sync_state") sync_state_schema
    ∷ create_table (lit "pending_ops") pending_ops_schema
    ∷ create_index (lit "idx_pending_ops_account_state") (record {
      is_unique = false;
      table = lit "pending_ops";
      columns = Column.account_id ∷ Column.state ∷ Column.created_at ∷ [];
    })
    ∷ create_table (lit "folders") folders_schema
    ∷ create_index (lit "idx_folders_account_path") (record {
      is_unique = true;
      table = lit "folders";
      columns = Column.account_id ∷ Column.path ∷ [];
    })
    ∷ create_table (lit "shared_drives") shared_drives_schema
    ∷ []

abbrev pub down_sync : List Change
down_sync =
    drop_table (lit "pending_ops")
    ∷ drop_table (lit "sync_state")
    ∷ drop_table (lit "token_refs")
    ∷ drop_table (lit "folders")
    ∷ drop_table (lit "shared_drives")
    ∷ drop_table (lit "accounts")
    ∷ drop_index (lit "idx_files_account_drive_id")
    ∷ drop_index (lit "idx_files_account_path")
    ∷ create_table (lit "files_old") files_schema
    ∷ copy_rows (lit "files") (lit "files_old") (
        Column.id ∷ Column.path ∷ Column.drive_id ∷ Column.etag ∷ Column.checksum ∷ Column.size
        ∷ Column.modified_at ∷ Column.created_at ∷ [])
    ∷ drop_table (lit "files")
    ∷ rename_table (lit "files_old") (lit "files")
    ∷ path_index
    ∷ []

-- what `goose.UpContext` applies to an empty database
unfoldable pub migrated_schema : Schema
unfolding apply get put delete str_eq
migrated_schema = apply_all (up_init ++ up_sync) no_schema
