-- ===== src/Storage/Migrations/Matches.antt =====
-- Whether the statements of internal/storage/store.go fit the schema of internal/storage/migrations.
use googlysync.Prelude.{
  Bool, ◌||◌, ◌≡◌, refl, some, List, [], ◌∷◌, ◌++◌, map, Str, lit, str_eq, ap, sym, ◌∙◌, arith,
}
use googlysync.Prelude.Dict.{get, put, delete}
use googlysync.Storage.Sql.{
  Table, accounts, token_refs, sync_state, files, folders, shared_drives, pending_ops, Column,
  key_of, depends_on_account, listed, same_column,
}
use googlysync.Storage.Accounts.{account_columns}
use googlysync.Storage.Tokens.{token_columns}
use googlysync.Storage.SyncStates.{state_columns}
use googlysync.Storage.Files.{file_columns}
use googlysync.Storage.Folders.{folder_columns}
use googlysync.Storage.Drives.{drive_columns}
use googlysync.Storage.Pending.{op_columns}
use googlysync.Storage.Schema.{Declared, TableSchema, apply}
use googlysync.Storage.Migrations.{migrated_schema}

abbrev pub name_of : Table → Str
name_of accounts = lit "accounts"
name_of token_refs = lit "token_refs"
name_of sync_state = lit "sync_state"
name_of files = lit "files"
name_of folders = lit "folders"
name_of shared_drives = lit "shared_drives"
name_of pending_ops = lit "pending_ops"

-- the columns that the store writes and reads
abbrev pub used : Table → List Column
used accounts = account_columns
used token_refs = token_columns
used sync_state = state_columns
used files = file_columns
used folders = folder_columns
used shared_drives = drive_columns
used pending_ops = op_columns

abbrev pub declared : TableSchema → List Column
declared s = map (λ (d : Declared). d.column) s.columns

swap_tests : (a b c : Bool) → (a || (b || c)) ≡ (b || (a || c))
swap_tests a b c = ground arith

-- a column that is declared last, as an added one is
listed-snoc :
    (c b : Column) (xs : List Column) → listed c (xs ++ b ∷ []) ≡ (same_column c b || listed c xs)
listed-snoc c b [] = refl
listed-snoc c b (x ∷ xs) =
    ap (λ b. same_column c x || b) (listed-snoc c b xs)
    ∙ swap_tests (same_column c x) (same_column c b) (listed c xs)

-- The table has the key that the statements name, falls with an account where the store relies on
-- it, and has the columns that are written and read, and no others.
pub record Fits (t : Table) (s : TableSchema) : Type 0 where
  pub key : s.key ≡ key_of t
  pub falls : s.falls ≡ depends_on_account t
  pub columns : (c : Column) → listed c (used t) ≡ listed c (declared s)

-- For each table of the store, both migrations leave a table of its name, whose primary key is the one
-- that the statements name, whose rows fall with their account where the store relies on it, and
-- whose columns are those that are written and read, and no others.
pub migrated_schema-Fits :
    (t : Table) → (s : TableSchema) × (get migrated_schema.tables (name_of t) ≡ some s) × Fits t s
unfolding migrated_schema apply get put delete str_eq
migrated_schema-Fits accounts = (_, refl, record { key = refl; falls = refl; columns = λ c. refl })
migrated_schema-Fits token_refs =
    (_, refl, record { key = refl; falls = refl; columns = λ c. refl })
migrated_schema-Fits sync_state =
    (_, refl, record { key = refl; falls = refl; columns = λ c. refl })
migrated_schema-Fits folders = (_, refl, record { key = refl; falls = refl; columns = λ c. refl })
migrated_schema-Fits shared_drives =
    (_, refl, record { key = refl; falls = refl; columns = λ c. refl })
migrated_schema-Fits pending_ops =
    (_, refl, record { key = refl; falls = refl; columns = λ c. refl })
migrated_schema-Fits files = (_, refl, record { key = refl; falls = refl; columns = all_but_last })
  where
    all_but_last :
        (c : Column)
        → listed c file_columns ≡ (
            same_column c Column.id
            || listed c (
                Column.path ∷ Column.drive_id ∷ Column.etag ∷ Column.checksum ∷ Column.size
                ∷ Column.modified_at ∷ Column.created_at ∷ Column.account_id ∷ []))
    all_but_last c =
        ap (λ b. same_column c Column.id || b)
          (sym (
            listed-snoc c Column.account_id (
              Column.path ∷ Column.drive_id ∷ Column.etag ∷ Column.checksum ∷ Column.size
              ∷ Column.modified_at ∷ Column.created_at ∷ [])))
