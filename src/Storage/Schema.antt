-- ===== src/Storage/Schema.antt =====
-- The statements of internal/storage/migrations as changes of a schema. A change of rows leaves the
-- schema as it is. Every table that a change names is there when it comes.
use googlysync.Prelude.{Bool, none, some, List, [], ◌∷◌, ◌++◌, if◌then◌else◌, Str, str_eq}
use googlysync.Prelude.Dict.{Dict, get, put, delete}
use googlysync.Storage.Sql.{Column, Value}

pub data Kind : Type 0 where
  texts integers : Kind

-- a column with its type, NOT NULL, and its default, which is NULL where none is given
pub record Declared : Type 0 where
  pub column : Column
  pub kind : Kind
  pub required : Bool
  pub default : Value

-- `falls`: FOREIGN KEY(account_id) REFERENCES accounts(id) ON DELETE CASCADE
pub record TableSchema : Type 0 where
  pub columns : List Declared
  pub key : Column
  pub falls : Bool

pub record Index : Type 0 where
  pub is_unique : Bool
  pub table : Str
  pub columns : List Column

pub record Schema : Type 0 where
  pub tables : Dict TableSchema
  pub indices : Dict Index

pub data Change : Type 0 where
  create_table : Str → TableSchema → Change
  add_column : Str → Declared → Change
  create_index : Str → Index → Change
  drop_index : Str → Change
  drop_table : Str → Change
  rename_table : Str → Str → Change
  -- INSERT OR IGNORE; the times of the row are those of the clock.
  insert_row : Str → List (Column × Value) → Change
  -- UPDATE of a column that is empty or NULL
  fill_rows : Str → Column → Value → Change
  -- INSERT … SELECT of some columns
  copy_rows : Str → Str → List Column → Change

-- IF NOT EXISTS
abbrev pub put_new {ℓ} : {V : Type ℓ} → Dict V → Str → V → Dict V
put_new m k v = elim (get m k) [ none ↦ put m k v | some old ↦ m ]

-- the indices that fall with a table
abbrev pub drop_indices : Str → Dict Index → Dict Index
drop_indices t [] = []
drop_indices t ((name, i) ∷ is) =
    let rest = drop_indices t is in if str_eq i.table t then rest else (name, i) ∷ rest

abbrev pub extended : Declared → TableSchema → TableSchema
extended c t = record t { columns = t.columns ++ c ∷ [] }

-- a change of the table of a name
abbrev pub on_table : (TableSchema → TableSchema) → Str → Dict TableSchema → Dict TableSchema
on_table f name m = elim (get m name) [ none ↦ m | some t ↦ put m name (f t) ]

abbrev pub renamed : Str → Str → Dict TableSchema → Dict TableSchema
renamed old new m = elim (get m old) [ none ↦ m | some t ↦ put (delete m old) new t ]

abbrev pub moved_indices : Str → Str → Dict Index → Dict Index
moved_indices old new [] = []
moved_indices old new ((name, i) ∷ is) =
    (name, record i { table = if str_eq i.table old then new else i.table })
    ∷ moved_indices old new is

unfoldable pub apply : Change → Schema → Schema
apply (create_table name t) s = record s { tables = put_new s.tables name t }
apply (add_column name c) s = record s { tables = on_table (extended c) name s.tables }
apply (create_index name i) s = record s { indices = put_new s.indices name i }
apply (drop_index name) s = record s { indices = delete s.indices name }
apply (drop_table name) s = record {
  tables = delete s.tables name;
  indices = drop_indices name s.indices;
}
apply (rename_table old new) s = record {
  tables = renamed old new s.tables;
  indices = moved_indices old new s.indices;
}
apply (insert_row name row) s = s
apply (fill_rows name c v) s = s
apply (copy_rows old new cs) s = s

abbrev pub apply_all : List Change → Schema → Schema
apply_all [] s = s
apply_all (c ∷ cs) s = apply_all cs (apply c s)

abbrev pub no_schema : Schema
no_schema = record { tables = []; indices = [] }
