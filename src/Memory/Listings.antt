-- ===== src/Memory/Listings.antt =====
-- A database of functions with two files, to run what is proved of the listings.
use googlysync.Prelude.{
  true, any, ◌≡◌, ◌↔◌, ◌⊎◌, refl, none, some, [], ◌∷◌, length, Memᴰ, lit, str_eq, pos, zero_time,
}
use googlysync.Prelude.Order.{insert, sort}
use googlysync.Storage.Sql.{value_leb}
use googlysync.Storage.Records.{guarded, scan_rows}
use googlysync.Storage.Times.{kept_time, from_unix, unix_time}
use googlysync.Storage.Prefixes.{escape_like, prefix_pattern, limit_or_default}
use googlysync.Storage.Prefixes.Matching.{BeginsWith, like-prefix_pattern_iff}
use googlysync.Storage.Prefixes.Listed.{IsListing}
use googlysync.Storage.Files.{FileRecord, scan_file, stamp_file, upsert_file, list_files_by_prefix}
use googlysync.Storage.Files.Found.{file_located, list_files_by_prefix-IsListing}
use googlysync.Storage.Files.Kept.{file_over, list_files_by_prefix-upsert_file}
use googlysync.Memory.{memory, empty, today}
use googlysync.Memory.Pattern.{like}
use googlysync.Memory.Query.{select, picked}

abbrev note : FileRecord
note = record {
  id = lit "f1";
  account_id = lit "1";
  path = lit "/a_b/n";
  drive_id = lit "d1";
  etag = [];
  checksum = [];
  size = pos 3;
  modified_at = today;
  created_at = zero_time;
}

abbrev photo : FileRecord
photo = record note { id = lit "f2"; path = lit "/acb/p"; drive_id = lit "d2" }

abbrev with_note : memory.Db
with_note = (upsert_file memory (some note) today empty).0

abbrev with_both : memory.Db
with_both = (upsert_file memory (some photo) today with_note).0

abbrev note_kept : FileRecord
note_kept = file_over none (stamp_file note today)

like-prefix_pattern_iff_example :
    (memory.like (prefix_pattern (lit "/a_")) (lit "/A_b/n") ≡ true)
    ↔ BeginsWith (lit "/A_b/n") (lit "/a_")
like-prefix_pattern_iff_example = like-prefix_pattern_iff memory (lit "/a_") (lit "/A_b/n")

list_files_by_prefix-IsListing_example :
    IsListing file_located memory (lit "1") (lit "/a_") (pos 0) with_both (note_kept ∷ [])
unfolding memory guarded any select picked insert sort value_leb escape_like like upsert_file
    list_files_by_prefix scan_rows scan_file str_eq kept_time from_unix unix_time
list_files_by_prefix-IsListing_example =
    list_files_by_prefix-IsListing memory (lit "1") (lit "/a_") (pos 0) with_both (note_kept ∷ [])
      refl

list_files_by_prefix-upsert_file_example :
    Memᴰ note_kept (note_kept ∷ []) ⊎ (length (note_kept ∷ []) ≡ limit_or_default (pos 1))
unfolding memory guarded any select picked insert sort value_leb escape_like like upsert_file
    list_files_by_prefix scan_rows scan_file str_eq kept_time from_unix unix_time
list_files_by_prefix-upsert_file_example =
    list_files_by_prefix-upsert_file memory note none today empty (lit "/a") (pos 1)
      (note_kept ∷ []) tt refl (lit "/a", lit "_b/n", refl, refl) refl
