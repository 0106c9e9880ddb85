-- ===== src/Memory/Records.antt =====
-- A database of functions, to run what is proved of internal/storage/store.go.
use googlysync.Prelude.{◌+◌, true, ◌≡◌, refl, none, some, if◌then◌else◌, lit, str_eq, zero_time}
use googlysync.Memory.{memory, empty, today}
use googlysync.Storage.Records.{guarded, scan_row}
use googlysync.Prelude.{any}
use googlysync.Storage.Sql.{value_leb}
use googlysync.Prelude.Order.{insert, sort}
use googlysync.Memory.Query.{select, picked}
use googlysync.Storage.Tokens.{TokenRef, stamp_token, upsert_token_ref, get_token_ref, scan_token}
use googlysync.Storage.Tokens.Kept.{kept_token}
use googlysync.Storage.Times.{second, int_to_bool, kept_time, from_unix, bool_to_int, unix_time}
use googlysync.Storage.Accounts.{
  Account, stamp_account, scan_account, upsert_account, get_account, delete_account,
}
use googlysync.Prelude.{◌↔◌, pos, [], false}
use googlysync.Storage.Files.{FileRecord, upsert_file}
use googlysync.Storage.Files.Found.{IsStored}
use googlysync.Storage.SyncStates.{SyncState, get_sync_state}
use googlysync.Storage.Cascade.{is_gone}
use googlysync.Storage.Folders.{Folder, upsert_folder}
use googlysync.Storage.Pending.{PendingOp, add_pending_op}
use googlysync.Storage.Falling.{left_of, HasFolder, HasOp, delete_account_falls}
use googlysync.Storage.Accounts.Roundtrip.{stored_over, get_account-upsert_account}

abbrev ann : Account
ann = record {
  id = lit "1";
  email = lit "ann@example.org";
  display_name = lit "Ann";
  is_primary = true;
  created_at = zero_time;
  updated_at = zero_time;
}

abbrev with_ann : memory.Db
with_ann = (upsert_account memory (some ann) today empty).0

abbrev ann_kept : Account
ann_kept = stored_over none (stamp_account ann today)

abbrev ann_again : Account
ann_again = stored_over (some ann_kept) (stamp_account ann (today + second))

get_account-upsert_account_example :
    some ann_again ≡ elim (upsert_account memory (some ann) (today + second) with_ann).1 [
      | none ↦ if str_eq (lit "1") (lit "1") then some ann_again else some ann_kept
      | some e ↦ some ann_kept
    ]
unfolding memory guarded any select picked insert sort value_leb upsert_account get_account scan_row
    scan_account str_eq int_to_bool kept_time from_unix bool_to_int unix_time
get_account-upsert_account_example =
    get_account-upsert_account memory ann (today + second) with_ann (lit "1") (some ann_kept)
      (some ann_again) refl refl

abbrev ref : TokenRef
ref = record {
  account_id = lit "1";
  key_id = lit "1";
  token_type = lit "refresh";
  scope = lit "email";
  expiry = today;
  updated_at = zero_time;
}

abbrev ref_kept : TokenRef
ref_kept = kept_token (stamp_token ref today)

abbrev with_ref : memory.Db
with_ref = (upsert_token_ref memory (some ref) today with_ann).0

abbrev note : FileRecord
note = record {
  id = lit "f1";
  account_id = lit "1";
  path = lit "/n";
  drive_id = lit "d1";
  etag = [];
  checksum = [];
  size = pos 3;
  modified_at = today;
  created_at = today;
}

abbrev with_note : memory.Db
with_note = (upsert_file memory (some note) today with_ref).0

abbrev drafts : Folder
drafts = record {
  id = lit "d1";
  account_id = lit "1";
  path = lit "/d";
  drive_id = lit "d2";
  parent_id = [];
  modified_at = today;
  created_at = today;
}

abbrev upload : PendingOp
upload = record {
  id = lit "p1";
  account_id = lit "1";
  path = lit "/n";
  drive_id = [];
  op_type = lit "upload";
  state = lit "queued";
  retry_count = pos 0;
  last_error = [];
  created_at = today;
  updated_at = today;
}

abbrev with_all : memory.Db
with_all =
    (add_pending_op memory (some upload) today
      (upsert_folder memory (some drafts) today with_note).0).0

delete_account_falls_example :
    (none
      ≡ left_of (delete_account memory (lit "1") with_all).1 (lit "1") (lit "1") (some ann_kept))
    × (none
        ≡ left_of (delete_account memory (lit "1") with_all).1 (lit "1") (lit "1") (some ref_kept))
    × (none
        ≡ left_of {A = SyncState}
            (delete_account memory (lit "1") with_all).1
            (lit "1")
            (lit "1")
            none)
    × (HasFolder memory (delete_account memory (lit "1") with_all).0 drafts ↔ (
        HasFolder memory with_all drafts
        × (is_gone (delete_account memory (lit "1") with_all).1 (lit "1") (lit "1") ≡ false)))
    × (HasOp memory (delete_account memory (lit "1") with_all).0 upload ↔ (
        HasOp memory with_all upload
        × (is_gone (delete_account memory (lit "1") with_all).1 (lit "1") (lit "1") ≡ false)))
    × (IsStored memory (delete_account memory (lit "1") with_all).0 note
        ↔ IsStored memory with_all note)
unfolding memory guarded any upsert_account upsert_token_ref upsert_file upsert_folder
    add_pending_op delete_account get_account get_token_ref get_sync_state scan_row scan_account
    scan_token str_eq int_to_bool kept_time from_unix bool_to_int unix_time
delete_account_falls_example =
    delete_account_falls memory (lit "1") (lit "1") with_all (some ann_kept) none (some ref_kept)
      none none none note drafts upload refl refl refl refl refl refl
