-- ===== src/Storage/Files/Found.antt =====
-- What `GetFileByPath` and `ListFilesByPrefix` of internal/storage/store.go return, of the files that
-- are stored.
use googlysync.Prelude.{
  true, ◌&&◌, ◌≡◌, ◌≢◌, subst, Bool-cases, inl, inr, refl, sym, ap, ◌∙◌, Option, none, some, List,
  [], ◌∷◌, arith, Str, str_eq, str_eq_iff, str_eq_refl, ℤ, ok, first_step, ok_injective,
}
use googlysync.Storage.Sql.{
  Value, text, integer, Column, files, Row, project, holds, Engine, left_where,
}
use googlysync.Storage.Records.{scan_row}
use googlysync.Storage.Prefixes.Listed.{Located, IsListing, under_prefix-IsListing}
use googlysync.Storage.Files.{
  FileRecord, file_columns, scan_file, get_file_by_path, delete_file, list_files_by_prefix,
}

-- the texts of a row that scans
pub file_texts :
    (v₁ v₂ v₃ v₄ v₅ v₆ v₇ v₈ v₉ : Value) (f : FileRecord)
    → scan_file (v₁ ∷ v₂ ∷ v₃ ∷ v₄ ∷ v₅ ∷ v₆ ∷ v₇ ∷ v₈ ∷ v₉ ∷ []) ≡ ok f
    → (v₁ ≡ text f.id) × (v₂ ≡ text f.account_id) × (v₃ ≡ text f.path)
unfolding scan_file
file_texts (text a) (text b) (text c) (text d) (text e) (text g) (integer s) (integer m) (integer n)
      f h =
    let p = ok_injective h in
    (ap (λ x. text x.id) p, ap (λ x. text x.account_id) p, ap (λ x. text x.path) p)
file_texts v₁ v₂ v₃ v₄ v₅ v₆ v₇ v₈ v₉ f h = cc

unfoldable pub file_located : Located FileRecord
file_located = record {
  table = files;
  columns = file_columns;
  scan = scan_file;
  account = λ f. f.account_id;
  path = λ f. f.path;
  scanned = λ r f e. let (_, a, p) = file_texts _ _ _ _ _ _ _ _ _ f e in (a, p);
}

module _ (sql : Engine) where
  open sql use {Db, find, exec, query_one, query_one_some, query_one_none, delete_files_done}

  -- Whatever `ListFilesByPrefix` returns are stored files of the account whose paths begin with the
  -- prefix, up to the case of ASCII letters, in the order of their paths and at most as many as the
  -- limit, which is 500 where none is given; and if they are fewer, they are all of these.
  pub list_files_by_prefix-IsListing :
      (account prefix : Str) (limit : ℤ) (db : Db) (fs : List FileRecord)
      → list_files_by_prefix sql account prefix limit db ≡ ok fs
      → IsListing file_located sql account prefix limit db fs
  unfolding list_files_by_prefix file_located
  list_files_by_prefix-IsListing account prefix limit db fs h =
      under_prefix-IsListing file_located sql account prefix limit db fs h

  abbrev pub IsStored : Db → FileRecord → Type 0
  IsStored db f =
      (k : Str) × (r : Row) × (find db files k ≡ some r)
      × (scan_file (project file_columns r) ≡ ok f)

  -- What a read by account and path may find.
  abbrev pub IsFound : Db → Str → Str → Option FileRecord → Type 0
  IsFound db account path none =
      (f : FileRecord) → IsStored db f → f.account_id ≡ account → f.path ≢ path
  IsFound db account path (some f) = IsStored db f × (f.account_id ≡ account) × (f.path ≡ path)

  abbrev at : Str → Str → List (Column × Str)
  at account path = (Column.account_id, account) ∷ (Column.path, path) ∷ []

  at_path :
      (r : Row) (f : FileRecord) (account path : Str)
      → scan_file (project file_columns r) ≡ ok f
      → holds ((Column.account_id, account) ∷ (Column.path, path) ∷ []) r
        ≡ (str_eq f.account_id account && (str_eq f.path path && true))
  at_path r f account path e =
      let (_, a, p) = file_texts _ _ _ _ _ _ _ _ _ f e in rw (holds, a, p) refl

  IsFound-scan_row :
      (account path : Str) (db : Db) (row : Option (List Value)) (out : Option FileRecord)
      → query_one files file_columns (at account path) db ≡ ok row
      → scan_row scan_file row ≡ ok out
      → IsFound db account path out
  unfolding scan_row
  IsFound-scan_row account path db none out e h =
      subst (IsFound db account path) (ok_injective h) λ f (k, r, g, s) i j.
        let a : holds (at account path) r ≡ true =
          rw (at_path r f account path s, i, j, str_eq_refl account, str_eq_refl path) refl in
        let b = query_one_none files file_columns (at account path) db e k r g in cc
  IsFound-scan_row account path db (some vs) out e h =
      let (f, s, g) = first_step (scan_file vs) h in
      let (k, r, i, j, q) = query_one_some files file_columns (at account path) db e in
      let s' : scan_file (project file_columns r) ≡ ok f = sym (ap scan_file q) ∙ s in
      let b = sym (at_path r f account path s') ∙ j in
      subst (IsFound db account path) (ok_injective g) (
        (k, r, i, s'),
        (str_eq_iff f.account_id account).0 (ground arith),
        (str_eq_iff f.path path).0 (ground arith),
      )

  -- `GetFileByPath` finds a stored file of the account with the path, and none only if there is none.
  pub get_file_by_path-IsFound :
      (account path : Str) (db : Db) (out : Option FileRecord)
      → get_file_by_path sql account path db ≡ ok out
      → IsFound db account path out
  unfolding get_file_by_path
  get_file_by_path-IsFound account path db out h =
      let (row, e, g) = first_step (query_one files file_columns (at account path) db) h in
      IsFound-scan_row account path db row out e g

  IsStored-delete_file :
      (account path : Str) (db : Db) (f : FileRecord)
      → (delete_file sql account path db).1 ≡ none
      → IsStored (delete_file sql account path db).0 f
      → IsStored db f × ((f.account_id ≡ account) → f.path ≢ path)
  unfolding delete_file
  IsStored-delete_file account path db f done (k, r, g, s) =
      kept (find db files k) refl (sym (delete_files_done (at account path) db done files k) ∙ g)
    where
      kept :
          (o : Option Row)
          → find db files k ≡ o
          → left_where (at account path) files o ≡ some r
          → IsStored db f × ((f.account_id ≡ account) → f.path ≢ path)
      kept none e h = cc
      kept (some q) e h = elim (Bool-cases (holds (at account path) q)) [
        | inl b ↦ let n : none ≡ some r = (rw b refl) ∙ h in cc
        | inr b ↦
            let n : some q ≡ some r = (rw b refl) ∙ h in
            let p : q ≡ r = cc in
            (
              (k, r, e ∙ n, s),
              λ i j.
                  let a : holds (at account path) r ≡ true =
                    rw (at_path r f account path s, i, j, str_eq_refl account, str_eq_refl path)
                      refl in
                  let b' = sym (ap (holds (at account path)) p) ∙ b in cc,
            )
      ]

  -- After a `DeleteFile` that succeeds, no file of the account is found at the path, and a file that
  -- is found elsewhere was stored before.
  pub get_file_by_path-delete_file :
      (account path : Str) (account' path' : Str) (db : Db) (f : FileRecord)
      → (delete_file sql account path db).1 ≡ none
      → get_file_by_path sql account' path' (delete_file sql account path db).0 ≡ ok (some f)
      → IsStored db f
        × (f.account_id ≡ account')
        × (f.path ≡ path')
        × (account' ≡ account → path' ≢ path)
  get_file_by_path-delete_file account path account' path' db f done h =
      let (s, a, p) = get_file_by_path-IsFound account' path' _ (some f) h in
      let (t, n) = IsStored-delete_file account path db f done s in
      (t, a, p, λ i j. n (a ∙ i) (p ∙ j))
