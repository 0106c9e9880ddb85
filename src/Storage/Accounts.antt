-- ===== src/Storage/Accounts.antt =====
-- The accounts of internal/storage/store.go: `UpsertAccount`, `GetAccount`, `DeleteAccount` and
-- `ListAccounts`. A column that is null or of another type than the schema gives it fails to be
-- scanned.
pub mod Roundtrip
use googlysync.Prelude.{
  Bool, Option, none, some, List, [], ◌∷◌, if◌then◌else◌, Str, lit, is_empty, Result, ok, err,
  ◌>>=◌, Time, or_now,
}
use googlysync.Storage.Sql.{
  Value, text, integer, Column, accounts, Select, Engine, upsert, delete_key,
}
use googlysync.Storage.Records.{guarded, scan_row, scan_rows}
use googlysync.Storage.Times.{unix_time, from_unix, bool_to_int, int_to_bool}

pub record Account : Type 0 where
  pub id : Str
  pub email : Str
  pub display_name : Str
  pub is_primary : Bool
  pub created_at : Time
  pub updated_at : Time

abbrev pub account_columns : List Column
account_columns =
    Column.id ∷ Column.email ∷ Column.display_name ∷ Column.is_primary ∷ Column.created_at
    ∷ Column.updated_at ∷ []

abbrev pub account_sets : List Column
account_sets = Column.email ∷ Column.display_name ∷ Column.is_primary ∷ Column.updated_at ∷ []

-- The times that are set on the account before it is written.
abbrev pub stamp_account : Account → Time → Account
stamp_account a now = record a {
  created_at = or_now a.created_at now;
  updated_at = or_now a.updated_at now;
}

abbrev pub account_args : Account → List Value
account_args a =
    text a.id
    ∷ text a.email
    ∷ text a.display_name
    ∷ integer (bool_to_int a.is_primary)
    ∷ integer (unix_time a.created_at)
    ∷ integer (unix_time a.updated_at)
    ∷ []

-- `row.Scan`, and the conversions after it
unfoldable pub scan_account : List Value → Result Account
scan_account (text i ∷ text m ∷ text d ∷ integer p ∷ integer c ∷ integer u ∷ []) = ok (record {
  id = i;
  email = m;
  display_name = d;
  is_primary = int_to_bool p;
  created_at = from_unix c;
  updated_at = from_unix u;
})
scan_account vs = err (lit "sql: Scan error")

abbrev pub all_accounts : Select
all_accounts = record {
  table = accounts;
  columns = account_columns;
  conditions = [];
  pattern = none;
  order = Column.created_at;
  limit = none;
}

module _ (sql : Engine) where
  open sql use {Db, exec, query_key, query_list}

  -- The database after the call, and the error.
  unfoldable pub upsert_account : Option Account → Time → Db → Db × Option Str
  upsert_account none now db = (db, none)
  upsert_account (some a) now db =
      guarded
        ((is_empty a.id, lit "account id cannot be empty")
          ∷ (is_empty a.email, lit "account email cannot be empty")
          ∷ [])
        db
        (exec (upsert accounts account_columns (account_args (stamp_account a now)) account_sets)
          db)

  unfoldable pub get_account : Str → Db → Result (Option Account)
  get_account id db = do row ← query_key accounts account_columns id db; scan_row scan_account row

  unfoldable pub delete_account : Str → Db → Db × Option Str
  delete_account id db = exec (delete_key accounts id) db

  unfoldable pub list_accounts : Db → Result (List Account)
  list_accounts db = do rows ← query_list all_accounts db; scan_rows scan_account rows
