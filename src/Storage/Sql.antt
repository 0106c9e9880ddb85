-- ===== src/Storage/Sql.antt =====
-- The SQL of internal/storage: its statements and queries as data, and the database that carries them
-- out. SQLite is a parameter. Its laws are what its documentation says of statements of these shapes
-- over the tables of internal/storage/migrations; whether a statement succeeds is left to it.
mod Values
mod Statements
unfoldable pub use Values.*
unfoldable pub use Statements.*
use googlysync.Prelude.{
  ℕ, Bool, true, false, ◌&&◌, ◌||◌, ◌≡◌, Option, none, some, List, [], ◌∷◌, map, ◌==◌,
  if◌then◌else◌, ℤ, Str, str_eq, Result, ok,
}

pub record Engine : Type 1 where
  pub Db : Type 0
  -- the row of a table with a primary key
  pub find : Db → Table → Str → Option Row
  pub exec : Statement → Db → Db × Option Str
  pub query_key : Table → List Column → Str → Db → Result (Option (List Value))
  pub query_one : Table → List Column → List (Column × Str) → Db → Result (Option (List Value))
  pub query_list : Select → Db → Result (List (List Value))
  -- LIKE with the escape character '\\': whether a text matches a pattern
  pub like : Str → Str → Bool
  pub find_key :
      (db : Db) (t : Table) (k : Str) {r : Row} → find db t k ≡ some r → r (key_of t) ≡ text k
  -- A statement that fails changes nothing.
  pub exec_failed :
      (s : Statement) (db : Db) {e : Str}
      → (exec s db).1 ≡ some e
      → (t : Table) (k : Str) → find (exec s db).0 t k ≡ find db t k
  pub upsert_done :
      (t : Table) (cs : List Column) (vs : List Value) (sets : List Column) (k : Str) (db : Db)
      → bind cs vs (key_of t) ≡ text k
      → (exec (upsert t cs vs sets) db).1 ≡ none
      → (u : Table) (j : Str)
      → find (exec (upsert t cs vs sets) db).0 u j
        ≡ written t k (merge_row sets (find db t k) (bind cs vs)) u j (find db u j)
  -- The key of a row that is inserted must be new.
  pub insert_done :
      (t : Table) (cs : List Column) (vs : List Value) (k : Str) (db : Db)
      → bind cs vs (key_of t) ≡ text k
      → (exec (insert t cs vs) db).1 ≡ none
      → (find db t k ≡ none)
        × ((u : Table) (j : Str)
            → find (exec (insert t cs vs) db).0 u j ≡ written t k (bind cs vs) u j (find db u j))
  -- An update leaves the key alone, and finds nothing to change where there is no such row.
  pub update_done :
      (t : Table) (cs : List Column) (vs : List Value) (k : Str) (db : Db)
      → listed (key_of t) cs ≡ false
      → (exec (update_key t cs vs k) db).1 ≡ none
      → (u : Table) (j : Str)
      → find (exec (update_key t cs vs k) db).0 u j ≡ (
          if same_table t u && str_eq k j
          then changed cs (bind cs vs) (find db u j)
          else find db u j)
  pub delete_done :
      (t : Table) (k : Str) (db : Db)
      → (exec (delete_key t k) db).1 ≡ none
      → (u : Table) (j : Str)
      → find (exec (delete_key t k) db).0 u j ≡ left_after t k u j (find db u j)
  pub delete_files_done :
      (conds : List (Column × Str)) (db : Db)
      → (exec (delete_files conds) db).1 ≡ none
      → (u : Table) (j : Str)
      → find (exec (delete_files conds) db).0 u j ≡ left_where conds u (find db u j)
  -- A query by primary key finds at most one row.
  pub query_key_done :
      (t : Table) (cs : List Column) (k : Str) (db : Db) {out : Option (List Value)}
      → query_key t cs k db ≡ ok out
      → out ≡ elim (find db t k) [ none ↦ none | some r ↦ some (project cs r) ]
  -- The first row of a query meets its conditions, and without a row none does.
  pub query_one_some :
      (t : Table) (cs : List Column) (conds : List (Column × Str)) (db : Db) {vs : List Value}
      → query_one t cs conds db ≡ ok (some vs)
      → (k : Str) × (r : Row) × (find db t k ≡ some r)
        × (holds conds r ≡ true)
        × (vs ≡ project cs r)
  pub query_one_none :
      (t : Table) (cs : List Column) (conds : List (Column × Str)) (db : Db)
      → query_one t cs conds db ≡ ok none
      → (k : Str) (r : Row) → find db t k ≡ some r
      → holds conds r ≡ false
  pub query_list_done :
      (q : Select) (db : Db) {out : List (List Value)}
      → query_list q db ≡ ok out
      → (rows : List Row) × (out ≡ map (project q.columns) rows)
        × Listing (find db q.table) like q rows
  -- `%` matches any text; an escaped byte, and any other but `_`, matches itself, where letters of
  -- ASCII are equal to their other case.
  pub like_any : (s : Str) → like (b'%' ∷ []) s ≡ true
  pub like_escaped : (c : ℕ) (p s : Str) → like (backslash ∷ c ∷ p) s ≡ match_head c s (like p)
  pub like_literal :
      (c : ℕ) (p s : Str) → is_special c ≡ false → like (c ∷ p) s ≡ match_head c s (like p)
