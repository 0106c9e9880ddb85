-- ===== src/Storage/Sql/Statements.antt =====
-- The statements and queries of internal/storage/store.go, and what they do to a row.
use googlysync.Prelude.{
  ℕ, ◌≤◌, Bool, true, false, ◌&&◌, ◌||◌, ◌≡◌, ◌⊎◌, Option, none, some, List, [], ◌∷◌, map, length,
  All, Memᴰ, if◌then◌else◌, Str, str_eq,
}
use googlysync.Prelude.Order.{IsSorted}
use googlysync.Storage.Sql.Values.{
  Table, accounts, files, same_table, depends_on_account, Column, account_id, path, same_column,
  Value, null, text, integer, Row, by_column, is_text,
}

-- The values of the VALUES clause at the columns before it.
abbrev pub bind : List Column → List Value → Row
bind [] vs c = null
bind (d ∷ ds) [] c = null
bind (d ∷ ds) (v ∷ vs) c = let rest = bind ds vs c in if same_column c d then v else rest

abbrev pub listed : Column → List Column → Bool
listed c [] = false
listed c (d ∷ ds) = same_column c d || listed c ds

-- DO UPDATE SET c = excluded.c for the columns given
abbrev pub merge_row : List Column → Option Row → Row → Row
merge_row sets none new = new
merge_row sets (some old) new = λ c. if listed c sets then new c else old c

-- INSERT INTO … ON CONFLICT(…) DO UPDATE SET …; INSERT INTO …; UPDATE … SET … WHERE key = ?;
-- DELETE FROM … WHERE key = ?; DELETE FROM files WHERE ….
pub data Statement : Type 0 where
  upsert : Table → List Column → List Value → List Column → Statement
  insert : Table → List Column → List Value → Statement
  update_key : Table → List Column → List Value → Str → Statement
  delete_key : Table → Str → Statement
  delete_files : List (Column × Str) → Statement

-- SELECT … FROM … WHERE column = ? AND … AND path LIKE ? ESCAPE '\\' ORDER BY … ASC LIMIT ?
pub record Select : Type 0 where
  pub table : Table
  pub columns : List Column
  pub conditions : List (Column × Str)
  pub pattern : Option Str
  pub order : Column
  pub limit : Option ℕ

abbrev pub project : List Column → Row → List Value
project cs r = map (λ c. r c) cs

-- `column = ?`, of which none holds for NULL
abbrev pub holds : List (Column × Str) → Row → Bool
holds [] r = true
holds ((c, s) ∷ conds) r = let rest = holds conds r in is_text s (r c) && rest

-- `path LIKE ? ESCAPE …`, which does not hold for NULL either; `like` is the matching.
abbrev pub fits : (Str → Str → Bool) → Option Str → Row → Bool
fits like none r = true
fits like (some p) r = elim (r path) [ null ↦ false | integer n ↦ false | text s ↦ like p s ]

abbrev pub account_of : Row → Option Str
account_of r = elim (r account_id) [ null ↦ none | text a ↦ some a | integer n ↦ none ]

-- a row that is deleted with the account
abbrev pub falls_with : Str → Option Row → Option Row
falls_with a none = none
falls_with a (some r) = elim (account_of r) [
  | none ↦ some r
  | some b ↦ if str_eq a b then none else some r
]

-- what is left of the row with a key when the row with another key of a table is deleted
abbrev pub left_after : Table → Str → Table → Str → Option Row → Option Row
left_after t k u j row =
    if same_table t u
    then (if str_eq k j then none else row)
    else if same_table t accounts && depends_on_account u
    then falls_with k row
    else row

-- what is left of a row when those of files that meet conditions are deleted
abbrev pub left_where : List (Column × Str) → Table → Option Row → Option Row
left_where conds u none = none
left_where conds u (some r) = if same_table files u && holds conds r then none else some r

abbrev pub written : Table → Str → Row → Table → Str → Option Row → Option Row
written t k r u j row = if same_table t u && str_eq k j then some r else row

-- the columns given are overwritten, if there is a row
abbrev pub changed : List Column → Row → Option Row → Option Row
changed cs new none = none
changed cs new (some r) = some (merge_row cs (some r) new)

-- The rows that a query finds, in their order. All are found, unless as many as the limit are.
pub record Listing (find : Str → Option Row) (like : Str → Str → Bool) (q : Select)
    (rows : List Row) : Type 0 where
  pub sound :
      All
        (λ r.
          ((k : Str) × (find k ≡ some r))
          × (holds q.conditions r ≡ true)
          × (fits like q.pattern r ≡ true))
        rows
  pub complete :
      (k : Str) (r : Row)
      → find k ≡ some r
      → holds q.conditions r ≡ true
      → fits like q.pattern r ≡ true
      → Memᴰ r rows ⊎ (q.limit ≡ some (length rows))
  pub bounded : (n : ℕ) → q.limit ≡ some n → length rows ≤ n
  pub sorted : IsSorted (by_column q.order) rows
