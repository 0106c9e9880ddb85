-- ===== src/Storage/Folders/Found.antt =====
-- What `ListFoldersByPrefix` of internal/storage/store.go returns.
use googlysync.Prelude.{◌≡◌, ap, List, [], ◌∷◌, Str, ℤ, ok, ok_injective}
use googlysync.Storage.Sql.{Value, text, integer, folders, Engine, Row, Column, project}
use googlysync.Storage.Prefixes.Listed.{Located, IsListing, under_prefix-IsListing}
use googlysync.Storage.Folders.{Folder, folder_columns, scan_folder, list_folders_by_prefix}

-- the texts of a row that scans
folder_texts :
    (v₁ v₂ v₃ v₄ v₅ v₆ v₇ : Value) (f : Folder)
    → scan_folder (v₁ ∷ v₂ ∷ v₃ ∷ v₄ ∷ v₅ ∷ v₆ ∷ v₇ ∷ []) ≡ ok f
    → (v₂ ≡ text f.account_id) × (v₃ ≡ text f.path)
unfolding scan_folder
folder_texts (text a) (text b) (text c) (text d) (text e) (integer m) (integer n) f h =
    let p = ok_injective h in (ap (λ x. text x.account_id) p, ap (λ x. text x.path) p)
folder_texts v₁ v₂ v₃ v₄ v₅ v₆ v₇ f h = cc

pub folder_account :
    (r : Row) (f : Folder)
    → scan_folder (project folder_columns r) ≡ ok f
    → r Column.account_id ≡ text f.account_id
folder_account r f e = (folder_texts _ _ _ _ _ _ _ f e).0

pub folder_located : Located Folder
folder_located = record {
  table = folders;
  columns = folder_columns;
  scan = scan_folder;
  account = λ f. f.account_id;
  path = λ f. f.path;
  scanned = λ r f e. folder_texts _ _ _ _ _ _ _ f e;
}

-- `ListFoldersByPrefix` returns stored folders of the account whose paths begin with the prefix, up
-- to the case of ASCII letters, in the order of their paths and at most as many as the limit; and if
-- they are fewer, they are all of these.
pub list_folders_by_prefix-IsListing :
    (sql : Engine) (account prefix : Str) (limit : ℤ) (db : sql.Db) (fs : List Folder)
    → list_folders_by_prefix sql account prefix limit db ≡ ok fs
    → IsListing folder_located sql account prefix limit db fs
unfolding list_folders_by_prefix folder_located
list_folders_by_prefix-IsListing sql account prefix limit db fs h =
    under_prefix-IsListing folder_located sql account prefix limit db fs h
