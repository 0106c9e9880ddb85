-- ===== src/Storage/Files/Kept.antt =====
-- What is listed after `UpsertFile` of internal/storage/store.go.
use googlysync.Prelude.{
  ◌≡◌, ◌⊎◌, refl, ap, ◌∙◌, Option, none, some, List, [], ◌∷◌, length, Memᴰ, Str, ℤ, ok,
  ok_injective, Time,
}
use googlysync.Storage.Sql.{
  Value, text, integer, Column, Row, files, bind, project, merge_row, Engine,
}
use googlysync.Storage.Records.Kept.{guarded_passed, written_self}
use googlysync.Storage.Times.{kept_time, from_unix, from_unix-unix_time}
use googlysync.Storage.Prefixes.{limit_or_default}
use googlysync.Storage.Prefixes.Matching.{BeginsWith}
use googlysync.Storage.Files.{
  FileRecord, file_columns, file_sets, file_args, stamp_file, scan_file, upsert_file,
  list_files_by_prefix,
}
use googlysync.Storage.Files.Found.{file_located, list_files_by_prefix-IsListing}

-- The file as it reads back: its times are cut to seconds, and a file that was stored under its id
-- keeps the time at which it was created.
abbrev pub file_over : Option FileRecord → FileRecord → FileRecord
file_over old f = record f {
  modified_at = kept_time f.modified_at;
  created_at = elim old [ none ↦ kept_time f.created_at | some g ↦ g.created_at ];
}

-- when a row that scans was created
created :
    (v₁ v₂ v₃ v₄ v₅ v₆ v₇ v₈ v : Value) (f : FileRecord)
    → scan_file (v₁ ∷ v₂ ∷ v₃ ∷ v₄ ∷ v₅ ∷ v₆ ∷ v₇ ∷ v₈ ∷ v ∷ []) ≡ ok f
    → (v₁ ≡ text f.id) × ((c : ℤ) × (v ≡ integer c) × (from_unix c ≡ f.created_at))
unfolding scan_file
created (text a) (text b) (text c) (text d) (text e) (text g) (integer s) (integer m) (integer n) f
      h =
    let p = ok_injective h in (ap (λ x. text x.id) p, (n, refl, ap (λ x. x.created_at) p))
created v₁ v₂ v₃ v₄ v₅ v₆ v₇ v₈ v f h = cc

-- what is stored under an id
abbrev pub HasFile : Option Row → Str → Option FileRecord → Type 0
HasFile none id none = Unit {0}
HasFile none id (some f) = ⊥
HasFile (some r) id none = ⊥
HasFile (some r) id (some f) = (scan_file (project file_columns r) ≡ ok f) × (f.id ≡ id)

merged_file :
    (row : Option Row) (old : Option FileRecord) (f : FileRecord)
    → HasFile row f.id old
    → scan_file (project file_columns (merge_row file_sets row (bind file_columns (file_args f))))
      ≡ ok (file_over old f)
unfolding scan_file
merged_file none none f h =
    rw (from_unix-unix_time f.modified_at, from_unix-unix_time f.created_at) refl
merged_file none (some g) f h = elim h [ ]
merged_file (some r) none f h = elim h [ ]
merged_file (some r) (some g) f (s, i) =
    let (a, (c, e, q)) = created _ _ _ _ _ _ _ _ _ g s in
    let k : r Column.id ≡ text f.id = a ∙ ap text i in
    rw (k, e, q, from_unix-unix_time f.modified_at) refl

module _ (sql : Engine) where
  open sql use {Db, find, upsert_done}

  -- After an `UpsertFile` that succeeds, the file is listed for its account under every prefix that
  -- its path begins with, as it reads back, unless as many files as the limit are.
  pub list_files_by_prefix-upsert_file :
      (f : FileRecord) (old : Option FileRecord) (now : Time) (db : Db) (prefix : Str) (limit : ℤ)
      (fs : List FileRecord)
      → HasFile (find db files f.id) f.id old
      → (upsert_file sql (some f) now db).1 ≡ none
      → BeginsWith f.path prefix
      → list_files_by_prefix sql f.account_id prefix limit (upsert_file sql (some f) now db).0
        ≡ ok fs
      → Memᴰ (file_over old (stamp_file f now)) fs ⊎ (length fs ≡ limit_or_default limit)
  unfolding upsert_file file_located
  list_files_by_prefix-upsert_file f old now db prefix limit fs has done begins l =
      let new = bind file_columns (file_args (stamp_file f now)) in
      let row = merge_row file_sets (find db files f.id) new in
      let (e, d) = guarded_passed _ db done in
      let g =
        ap (λ w. find w.0 files f.id) e
        ∙ upsert_done files file_columns (file_args (stamp_file f now)) file_sets f.id db refl d
            files f.id
        ∙ written_self files f.id row _ in
      let listing = list_files_by_prefix-IsListing sql f.account_id prefix limit _ fs l in
      let s = merged_file (find db files f.id) old (stamp_file f now) has in
      listing.complete f.id row _ g s refl begins
