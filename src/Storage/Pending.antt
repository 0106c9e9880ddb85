-- ===== src/Storage/Pending.antt =====
-- The pending operations of internal/storage/store.go: `AddPendingOp`, `ListPendingOps`,
-- `UpdatePendingOp` and `DeletePendingOp`.
pub mod Queued
use googlysync.Prelude.{
  ℕ, suc, Bool, ◌≡◌, Option, none, some, List, [], ◌∷◌, ◌++◌, if◌then◌else◌, Str, lit, is_empty, ℤ,
  pos, negsuc, Result, ok, err, ◌>>=◌, Time, or_now,
}
use googlysync.Storage.Sql.{
  Value, text, integer, Column, pending_ops, Select, Engine, upsert, insert, update_key, delete_key,
  delete_files, backslash, is_special,
}
use googlysync.Storage.Records.{guarded, scan_row, scan_rows}
use googlysync.Storage.Times.{unix_time, from_unix, bool_to_int, int_to_bool}
use googlysync.Storage.Prefixes.{limit_or_default}

pub record PendingOp : Type 0 where
  pub id : Str
  pub account_id : Str
  pub path : Str
  pub drive_id : Str
  pub op_type : Str
  pub state : Str
  pub retry_count : ℤ
  pub last_error : Str
  pub created_at : Time
  pub updated_at : Time

abbrev pub op_columns : List Column
op_columns =
    Column.id ∷ Column.account_id ∷ Column.path ∷ Column.drive_id ∷ Column.op_type ∷ Column.state
    ∷ Column.retry_count ∷ Column.last_error ∷ Column.created_at ∷ Column.updated_at ∷ []

abbrev pub stamp_op : PendingOp → Time → PendingOp
stamp_op op now = record op {
  created_at = or_now op.created_at now;
  updated_at = or_now op.updated_at now;
  state = if is_empty op.state then lit "queued" else op.state;
}

abbrev pub op_args : PendingOp → List Value
op_args op =
    text op.id
    ∷ text op.account_id
    ∷ text op.path
    ∷ text op.drive_id
    ∷ text op.op_type
    ∷ text op.state
    ∷ integer op.retry_count
    ∷ text op.last_error
    ∷ integer (unix_time op.created_at)
    ∷ integer (unix_time op.updated_at)
    ∷ []

unfoldable pub scan_op : List Value → Result PendingOp
scan_op
      (text a
        ∷ text b
        ∷ text c
        ∷ text d
        ∷ text e
        ∷ text f
        ∷ integer g
        ∷ text h
        ∷ integer i
        ∷ integer j
        ∷ []) =
    ok (record {
      id = a;
      account_id = b;
      path = c;
      drive_id = d;
      op_type = e;
      state = f;
      retry_count = g;
      last_error = h;
      created_at = from_unix i;
      updated_at = from_unix j;
    })
scan_op vs = err (lit "sql: Scan error")

-- `if state != "" { … }`
abbrev pub in_state : Str → List (Column × Str)
in_state state = if is_empty state then [] else (Column.state, state) ∷ []

abbrev pub pending_in : Str → Str → ℤ → Select
pending_in account_id state limit = record {
  table = pending_ops;
  columns = op_columns;
  conditions = (Column.account_id, account_id) ∷ in_state state;
  pattern = none;
  order = Column.created_at;
  limit = some (limit_or_default limit);
}

-- SET state = ?, retry_count = ?, last_error = ?, updated_at = ?
abbrev pub progress_columns : List Column
progress_columns = Column.state ∷ Column.retry_count ∷ Column.last_error ∷ Column.updated_at ∷ []

module _ (sql : Engine) where
  open sql use {Db, exec, query_key, query_one, query_list}

  unfoldable pub add_pending_op : Option PendingOp → Time → Db → Db × Option Str
  add_pending_op none now db = (db, none)
  add_pending_op (some op) now db =
      guarded
        ((is_empty op.id, lit "pending_op id cannot be empty")
          ∷ (is_empty op.account_id, lit "pending_op account_id cannot be empty")
          ∷ (is_empty op.path, lit "pending_op path cannot be empty")
          ∷ (is_empty op.op_type, lit "pending_op op_type cannot be empty")
          ∷ [])
        db (exec (insert pending_ops op_columns (op_args (stamp_op op now))) db)

  unfoldable pub list_pending_ops : Str → Str → ℤ → Db → Result (List PendingOp)
  list_pending_ops account_id state limit db = do
    rows ← query_list (pending_in account_id state limit) db
    scan_rows scan_op rows

  unfoldable pub update_pending_op : Str → Str → ℤ → Str → Time → Db → Db × Option Str
  update_pending_op id state retry_count last_error now db =
      exec
        (update_key pending_ops progress_columns
          (text state ∷ integer retry_count ∷ text last_error ∷ integer (unix_time now) ∷ []) id)
        db

  unfoldable pub delete_pending_op : Str → Db → Db × Option Str
  delete_pending_op id db = exec (delete_key pending_ops id) db
