-- ===== src/Storage/Records.antt =====
-- What the operations of internal/storage/store.go have in common: a write stands behind checks of
-- its argument, a read scans what the query finds, and each kind of record has a table, the columns
-- of its statements and a way to scan a row.
pub mod Kept
pub mod Listed
use googlysync.Prelude.{
  Bool, ◌≡◌, Option, none, some, List, [], ◌∷◌, if◌then◌else◌, Str, Result, ok, err, ◌>>=◌,
}
use googlysync.Storage.Sql.{
  Value, text, Table, Column, Row, key_of, bind, merge_row, project, Select, Engine, upsert,
}

-- The first check that finds a fault returns its text, and nothing is written.
unfoldable pub guarded {ℓ} : {D : Type ℓ} → List (Bool × Str) → D → D × Option Str → D × Option Str
guarded [] d write = write
guarded ((fault, e) ∷ checks) d write =
    let rest = guarded checks d write in if fault then (d, some e) else rest

-- `sql.ErrNoRows` becomes nil.
unfoldable pub scan_row :
    {A : Type 0} → (List Value → Result A) → Option (List Value) → Result (Option A)
scan_row scan none = ok none
scan_row scan (some vs) = do a ← scan vs; ok (some a)

-- the loop over `rows.Next()`
unfoldable pub scan_rows :
    {A : Type 0} → (List Value → Result A) → List (List Value) → Result (List A)
scan_rows scan [] = ok []
scan_rows scan (vs ∷ rows) =
    let others = scan_rows scan rows in do a ← scan vs; rest ← others; ok (a ∷ rest)

-- What `scan_row` makes of a row that stands in a table.
abbrev pub read_row :
    {A : Type 0} → (List Value → Result A) → List Column → Option Row → Result (Option A)
read_row scan cs row = scan_row scan (elim row [ none ↦ none | some r ↦ some (project cs r) ])

-- A kind of record: `over` is what a write leaves where a record was or was not before, as it reads
-- back.
pub record Codec (A : Type 0) : Type 0 where
  pub table : Table
  pub columns : List Column
  pub sets : List Column
  pub key : A → Str
  pub args : A → List Value
  pub scan : List Value → Result A
  pub over : Option A → A → A
  pub keyed : (a : A) → bind columns (args a) (key_of table) ≡ text (key a)
  pub merged :
      (row : Option Row) (a : A) (x : Option A)
      → ((r : Row) → row ≡ some r → r (key_of table) ≡ text (key a))
      → read_row scan columns row ≡ ok x
      → read_row scan columns (some (merge_row sets row (bind columns (args a))))
        ≡ ok (some (over x a))

module _ {A : Type 0} (c : Codec A) (sql : Engine) where
  open sql use {Db, exec, query_key}

  abbrev pub load : Str → Db → Result (Option A)
  load k db = do row ← query_key c.table c.columns k db; scan_row c.scan row

  abbrev pub save : List (Bool × Str) → A → Db → Db × Option Str
  save checks a db = guarded checks db (exec (upsert c.table c.columns (c.args a) c.sets) db)
