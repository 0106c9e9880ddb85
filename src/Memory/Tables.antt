-- ===== src/Memory/Tables.antt =====
-- A store of rows with the keys that may be in it, and the statements on it.
use googlysync.Prelude.{
  Bool, Option-cases, ap, ◌||◌, ◌∙◌, sym, arith, str_eq_iff, Bool-cases, inl, inr, ap, ◌∙◌, arith,
  str_eq_iff, false, ◌&&◌, ◌||◌, ◌≡◌, refl, sym, Option, Option-cases, none, some, List, ◌∷◌,
  if◌then◌else◌, Str, lit, str_eq, any,
}
use googlysync.Storage.Sql.{
  Value, null, text, integer, Column, Row, Table, bind, merge_row, listed, key_of, Statement,
  upsert, insert, update_key, delete_key, delete_files, left_after, left_where, changed, written,
  listed, same_table,
}
use googlysync.Memory.Rows.{
  same_table_sound, keyed, HasKey, keyed-HasKey, keyed_same, merge_row-HasKey, written-HasKey,
  changed-HasKey, if_HasKey,
}

pub record Store : Type 0 where
  pub rows : Table → Str → Option Row
  pub keys : Table → List Str

abbrev pub known : Store → Table → Str → Bool
known db t k = any (str_eq k) (db.keys t)

abbrev pub find_row : Store → Table → Str → Option Row
find_row db t k = if known db t k then keyed t k (db.rows t k) else none

pub find_row-HasKey : (db : Store) (t : Table) (k : Str) → HasKey t k (find_row db t k)
find_row-HasKey db t k =
    if_HasKey (known db t k) t k _ none (λ e. keyed-HasKey t k (db.rows t k)) (λ r e. cc)

abbrev with_key : Table → Str → (Table → List Str) → Table → List Str
with_key t k keys u = if same_table t u then k ∷ keys u else keys u

abbrev put_row : Table → (Str → Row) → Value → Store → Store × Option Str
put_row t new null db = (db, some (lit "no key"))
put_row t new (integer n) db = (db, some (lit "no key"))
put_row t new (text k) db = (
  record { rows = λ u j. written t k (new k) u j (find_row db u j); keys = with_key t k db.keys },
  none,
)

abbrev if_fresh : Option Row → Store → Store × Option Str → Store × Option Str
if_fresh none db write = write
if_fresh (some r) db write = (db, some (lit "UNIQUE constraint failed"))

abbrev add_row : Table → Row → Value → Store → Store × Option Str
add_row t new null db = (db, some (lit "no key"))
add_row t new (integer n) db = (db, some (lit "no key"))
add_row t new (text k) db = if_fresh (find_row db t k) db (put_row t (λ k'. new) (text k) db)

-- every row is made another, or is deleted
abbrev revised : (Table → Str → Option Row → Option Row) → Store → Store
revised f db = record db { rows = λ u j. f u j (find_row db u j) }

abbrev pub overwrite : Table → List Column → Row → Str → Table → Str → Option Row → Option Row
overwrite t cs new k u j row = if same_table t u && str_eq k j then changed cs new row else row

abbrev pub run : Statement → Store → Store × Option Str
run (upsert t cs vs sets) db =
    put_row t (λ k. merge_row sets (find_row db t k) (bind cs vs)) (bind cs vs (key_of t)) db
run (insert t cs vs) db = add_row t (bind cs vs) (bind cs vs (key_of t)) db
run (update_key t cs vs k) db = (revised (overwrite t cs (bind cs vs) k) db, none)
run (delete_key t k) db = (revised (left_after t k) db, none)
run (delete_files conds) db = (revised (λ u j row. left_where conds u row) db, none)

-- What stands under its key, and nowhere but under a key that is known, is found.
found :
    (db : Store) (t : Table) (k : Str)
    → HasKey t k (db.rows t k)
    → (known db t k ≡ false → db.rows t k ≡ none)
    → find_row db t k ≡ db.rows t k
found db t k h n = elim (Bool-cases (known db t k)) [
  | inl e ↦ rw e (keyed_same t k (db.rows t k) h)
  | inr e ↦ rw (e, n e) refl
]

find_row-none : (db : Store) (t : Table) (k : Str) → known db t k ≡ false → find_row db t k ≡ none
find_row-none db t k e = rw e refl

known-with_key :
    (db : Store) (t : Table) (k : Str) (u : Table) (j : Str) (rows : Table → Str → Option Row)
    → known (record { rows = rows; keys = with_key t k db.keys }) u j ≡ false
    → (same_table t u && str_eq k j ≡ false) × (known db u j ≡ false)
unfolding any
known-with_key db t k u j rows h = elim (Bool-cases (same_table t u)) [
  | inl e ↦
      let g : str_eq j k || any (str_eq j) (db.keys u) ≡ false = (rw e refl) ∙ h in
      (rw e (differ (ground arith)), ground arith)
  | inr e ↦ let g : any (str_eq j) (db.keys u) ≡ false = (rw e refl) ∙ h in (rw e refl, g)
]
  where
    differ : str_eq j k ≡ false → str_eq k j ≡ false
    differ n = ground (arith, str_eq_iff j k, str_eq_iff k j)

pub put_row_found :
    (t : Table) (new : Str → Row) (k : Str) (db : Store)
    → new k (key_of t) ≡ text k
    → (u : Table) (j : Str)
    → find_row (put_row t new (text k) db).0 u j ≡ written t k (new k) u j (find_row db u j)
put_row_found t new k db e u j =
    let after = (put_row t new (text k) db).0 in
    found after u j (written-HasKey t k (new k) u j _ e (find_row-HasKey db u j))
      λ n. let (a, b) = known-with_key db t k u j after.rows n in rw (a, b) refl

pub upserted :
    (t : Table) (new : Row) (sets : List Column) (k : Str) (db : Store)
    → new (key_of t) ≡ text k
    → (u : Table) (j : Str)
    → find_row (put_row t (λ k'. merge_row sets (find_row db t k') new) (new (key_of t)) db).0 u j
      ≡ written t k (merge_row sets (find_row db t k) new) u j (find_row db u j)
upserted t new sets k db e u j = rw e (
    put_row_found t (λ k'. merge_row sets (find_row db t k') new) k db
      (merge_row-HasKey t k sets _ new (find_row-HasKey db t k) e) u j)

pub inserted :
    (t : Table) (new : Row) (k : Str) (db : Store)
    → new (key_of t) ≡ text k
    → (add_row t new (new (key_of t)) db).1 ≡ none
    → (find_row db t k ≡ none)
      × ((u : Table) (j : Str)
          → find_row (add_row t new (new (key_of t)) db).0 u j
            ≡ written t k new u j (find_row db u j))
inserted t new k db e h = elim (Option-cases (find_row db t k)) [
  | inl n ↦ (
    n,
    λ u j.
        let q = ap (λ o. if_fresh o db (put_row t (λ k'. new) (text k) db)) n in
        (rw e (ap (λ w. find_row w.0 u j) q)) ∙ put_row_found t (λ k'. new) k db e u j,
  )
  | inr (r, f) ↦
      let q = ap (λ o. if_fresh o db (put_row t (λ k'. new) (text k) db)) f in
      let g : (add_row t new (text k) db).1 ≡ none = sym (rw e refl) ∙ h in
      let m = sym (ap (λ w. w.1) q) ∙ g in cc
]

pub revised_found :
    (f : Table → Str → Option Row → Option Row) (db : Store) (u : Table) (j : Str)
    → ((o : Option Row) → HasKey u j o → HasKey u j (f u j o))
    → f u j none ≡ none
    → find_row (revised f db) u j ≡ f u j (find_row db u j)
revised_found f db u j keeps nothing =
    found (revised f db) u j (keeps (find_row db u j) (find_row-HasKey db u j))
      (λ n. ap (f u j) (find_row-none db u j n) ∙ nothing)

pub overwrite-HasKey :
    (t : Table) (cs : List Column) (new : Row) (k : Str) (u : Table) (j : Str) (o : Option Row)
    → listed (key_of t) cs ≡ false
    → HasKey u j o
    → HasKey u j (overwrite t cs new k u j o)
overwrite-HasKey t cs new k u j o l h =
    if_HasKey (same_table t u && str_eq k j) u j (changed cs new o) o
      (λ e.
        let i : t ≡ u = same_table_sound t u (grind arith) in
        changed-HasKey u j cs new o (ap (λ v. listed (key_of v) cs) (sym i) ∙ l) h)
      h

pub overwrite-none :
    (t : Table) (cs : List Column) (new : Row) (k : Str) (u : Table) (j : Str)
    → overwrite t cs new k u j none ≡ none
overwrite-none t cs new k u j = ground arith

put_row_failed :
    (t : Table) (new : Str → Row) (v : Value) (db : Store) {e : Str}
    → (put_row t new v db).1 ≡ some e
    → (u : Table) (j : Str) → find_row (put_row t new v db).0 u j ≡ find_row db u j
put_row_failed t new null db h u j = refl
put_row_failed t new (integer n) db h u j = refl
put_row_failed t new (text k) db h u j = cc

add_row_failed :
    (t : Table) (new : Row) (v : Value) (db : Store) {e : Str}
    → (add_row t new v db).1 ≡ some e
    → (u : Table) (j : Str) → find_row (add_row t new v db).0 u j ≡ find_row db u j
add_row_failed t new null db h u j = refl
add_row_failed t new (integer n) db h u j = refl
add_row_failed t new (text k) db {e = e} h u j = fresh (find_row db t k) h
  where
    write : Store × Option Str
    write = put_row t (λ k'. new) (text k) db

    fresh :
        (o : Option Row)
        → (if_fresh o db write).1 ≡ some e
        → find_row (if_fresh o db write).0 u j ≡ find_row db u j
    fresh none m = cc
    fresh (some r) m = refl

pub run_failed :
    (s : Statement) (db : Store) {e : Str}
    → (run s db).1 ≡ some e
    → (t : Table) (k : Str) → find_row (run s db).0 t k ≡ find_row db t k
run_failed (upsert t cs vs sets) db h u j = put_row_failed t _ (bind cs vs (key_of t)) db h u j
run_failed (insert t cs vs) db h u j =
    add_row_failed t (bind cs vs) (bind cs vs (key_of t)) db h u j
run_failed (update_key t cs vs k) db h u j = cc
run_failed (delete_key t k) db h u j = cc
run_failed (delete_files conds) db h u j = cc
