-- ===== src/Memory/Operations.antt =====
-- A database of functions with an operation that waits, and with the sync metadata of an account.
use googlysync.Prelude.{
  true, any, ◌≡◌, ◌⊎◌, inr, refl, some, [], ◌∷◌, length, Memᴰ, lit, str_eq, pos, zero_time, ◌+◌,
}
use googlysync.Prelude.Order.{insert, sort}
use googlysync.Storage.Sql.{value_leb}
use googlysync.Storage.Records.{guarded, scan_rows}
use googlysync.Storage.Times.{second, kept_time, from_unix, unix_time}
use googlysync.Storage.Prefixes.{limit_or_default}
use googlysync.Storage.Pending.{PendingOp, scan_op, stamp_op, add_pending_op, list_pending_ops}
use googlysync.Storage.Pending.Queued.{kept_op, progressed, list_pending_ops-add_pending_op}
use googlysync.Storage.SyncStates.{SyncState, stamp_state}
use googlysync.Storage.SyncStates.Kept.{kept_state}
use googlysync.Memory.{memory, empty, today}
use googlysync.Memory.Query.{select, picked}

abbrev upload : PendingOp
upload = record {
  id = lit "o1";
  account_id = lit "1";
  path = lit "/a/n";
  drive_id = [];
  op_type = lit "upload";
  state = [];
  retry_count = pos 0;
  last_error = [];
  created_at = zero_time;
  updated_at = zero_time;
}

abbrev with_upload : memory.Db
with_upload = (add_pending_op memory (some upload) today empty).0

abbrev upload_kept : PendingOp
upload_kept = kept_op (stamp_op upload today)

abbrev upload_failed : PendingOp
upload_failed = progressed upload_kept (lit "failed") (pos 1) (lit "quota") (today + second)

list_pending_ops-add_pending_op_example :
    Memᴰ upload_kept (upload_kept ∷ []) ⊎ (length (upload_kept ∷ []) ≡ limit_or_default (pos 0))
unfolding memory guarded any select picked insert sort value_leb add_pending_op list_pending_ops
    scan_rows scan_op str_eq kept_time from_unix unix_time
list_pending_ops-add_pending_op_example =
    list_pending_ops-add_pending_op memory upload today empty (lit "queued") (pos 0)
      (upload_kept ∷ []) refl (inr refl) refl

abbrev paused : SyncState
paused = record {
  account_id = lit "1";
  start_page_token = lit "t7";
  last_sync_at = today;
  last_error = [];
  paused = true;
  updated_at = zero_time;
}

abbrev paused_kept : SyncState
paused_kept = kept_state (stamp_state paused today)
