-- ===== src/Storage/Records/Kept.antt =====
-- What the reads of internal/storage/store.go find after the writes, for each kind of record.
use googlysync.Prelude.{
  Bool, Bool-cases, str_eq_refl, inl, inr, true, false, ◌≡◌, refl, sym, ap, ◌∙◌, Option, none, some,
  Option-cases, List, [], ◌∷◌, if◌then◌else◌, Str, str_eq, str_eq_iff, ok, ok_injective, first_step,
}
use googlysync.Storage.Sql.{
  Column, text, key_of, falls_with, account_of, left_after, delete_key, accounts, Table,
  same_table_refl, Row, bind, merge_row, upsert, written, Engine,
}
use googlysync.Storage.Records.{scan_row, guarded, read_row, Codec, load, save}

pub guarded_passed :
    {D : Type 0} (checks : List (Bool × Str)) (d : D) {p : D × Option Str}
    → (guarded checks d p).1 ≡ none
    → (guarded checks d p ≡ p) × (p.1 ≡ none)
unfolding guarded
guarded_passed [] d h = (refl, h)
guarded_passed ((true, e) ∷ checks) d h = cc
guarded_passed ((false, e) ∷ checks) d h = guarded_passed checks d h

-- What a write that fails leaves alone, the checks before it do.
pub guarded_refused :
    {D B : Type 0} (checks : List (Bool × Str)) (d : D) (see : D → B) (m : Str) {p : D × Option Str}
    → (p.1 ≡ some m → see p.0 ≡ see d)
    → (guarded checks d p).1 ≡ some m
    → see (guarded checks d p).0 ≡ see d
unfolding guarded
guarded_refused [] d see m k h = k h
guarded_refused ((true, e) ∷ checks) d see m k h = refl
guarded_refused ((false, e) ∷ checks) d see m k h = guarded_refused checks d see m k h

falls_with_key :
    (k j : Str) (o : Option Row)
    → ((r : Row) → o ≡ some r → r Column.account_id ≡ text j)
    → falls_with k o ≡ (if str_eq k j then none else o)
falls_with_key k j none h = elim (Bool-cases (str_eq k j)) [ inl e ↦ rw e refl | inr e ↦ rw e refl ]
falls_with_key k j (some r) h = rw (falls_with, account_of, h r refl) refl

pub written_self :
    (t : Table) (k : Str) (new : Row) (row : Option Row) → written t k new t k row ≡ some new
written_self t k new row = rw (same_table_refl t, str_eq_refl k) refl

module _ {A : Type 0} (c : Codec A) (sql : Engine) where
  open sql use {
    Db, find, exec, query_key, exec_failed, upsert_done, delete_done, query_key_done, find_key,
  }

  pub load_found :
      (k : Str) (db : Db) {x : Option A}
      → load c sql k db ≡ ok x
      → read_row c.scan c.columns (find db c.table k) ≡ ok x
  load_found k db h =
      let (row, e, q) = first_step (query_key c.table c.columns k db) h in
      rw (sym (query_key_done c.table c.columns k db e)) q

  -- If a write makes the row under a key `row`, that is what is read.
  pub load_of_row :
      (k : Str) (db : Db) {row : Option Row} {x y : Option A}
      → find db c.table k ≡ row
      → read_row c.scan c.columns row ≡ ok y
      → load c sql k db ≡ ok x
      → x ≡ y
  load_of_row k db e q h =
      ok_injective (sym (load_found k db h) ∙ ap (read_row c.scan c.columns) e ∙ q)

  save_found :
      (checks : List (Bool × Str)) (a : A) (db : Db)
      → (save c sql checks a db).1 ≡ none
      → (u : Table) (j : Str)
      → find (save c sql checks a db).0 u j
        ≡ written c.table
            (c.key a)
            (merge_row c.sets (find db c.table (c.key a)) (bind c.columns (c.args a)))
            u
            j
            (find db u j)
  save_found checks a db h u j =
      let (e, d) = guarded_passed checks db h in
      rw e (upsert_done c.table c.columns (c.args a) c.sets (c.key a) db (c.keyed a) d u j)

  save_refused :
      (checks : List (Bool × Str)) (a : A) (db : Db) (m : Str)
      → (save c sql checks a db).1 ≡ some m
      → (u : Table) (j : Str) → find (save c sql checks a db).0 u j ≡ find db u j
  save_refused checks a db m h u j =
      guarded_refused checks db (λ d. find d u j) m
        (λ e. exec_failed (upsert c.table c.columns (c.args a) c.sets) db e u j) h

  save_read :
      (checks : List (Bool × Str)) (a : A) (db : Db) (j : Str) (x : Option A)
      → read_row c.scan c.columns (find db c.table j) ≡ ok x
      → (save c sql checks a db).1 ≡ none
      → read_row c.scan c.columns (find (save c sql checks a db).0 c.table j)
        ≡ ok (if str_eq (c.key a) j then some (c.over x a) else x)
  save_read checks a db j x q e = elim (Bool-cases (str_eq (c.key a) j)) [
    | inl f ↦
        let i = (str_eq_iff (c.key a) j).0 f in
        let m =
          c.merged (find db c.table (c.key a)) a x (λ r g. find_key db c.table (c.key a) g)
            (rw i q) in
        rw (save_found checks a db e c.table j, same_table_refl c.table, f) m
    | inr f ↦ rw (save_found checks a db e c.table j, same_table_refl c.table, f) q
  ]

  -- Where a write leaves nothing of the row that was there, that need not be known.
  pub load_saved :
      (checks : List (Bool × Str)) (a y : A) (db : Db) (after : Option A)
      → ((row : Option Row)
          → ((r : Row) → row ≡ some r → r (key_of c.table) ≡ text (c.key a))
          → read_row c.scan c.columns (some (merge_row c.sets row (bind c.columns (c.args a))))
            ≡ ok (some y))
      → (save c sql checks a db).1 ≡ none
      → load c sql (c.key a) (save c sql checks a db).0 ≡ ok after
      → after ≡ some y
  load_saved checks a y db after whole e =
      load_of_row (c.key a) _
        (save_found checks a db e c.table (c.key a) ∙ written_self c.table (c.key a) _ _)
        (whole (find db c.table (c.key a)) (λ r g. find_key db c.table (c.key a) g))

  -- What a read finds after a write, on success and on failure.
  pub load-save :
      (checks : List (Bool × Str)) (a : A) (db : Db) (j : Str) (before after : Option A)
      → load c sql j db ≡ ok before
      → load c sql j (save c sql checks a db).0 ≡ ok after
      → after ≡ elim (save c sql checks a db).1 [
        | none ↦ if str_eq (c.key a) j then some (c.over before a) else before
        | some e ↦ before
      ]
  load-save checks a db j before after h k =
      let q = load_found j db h in
      elim (Option-cases (save c sql checks a db).1) [
        | inl e ↦ rw e (load_of_row j _ refl (save_read checks a db j before q e) k)
        | inr (m, e) ↦ rw e (load_of_row j _ (save_refused checks a db m e c.table j) q k)
      ]

  load_of_deleted :
      (k j : Str) (db : Db) (t : Table) (before after : Option A)
      → ((exec (delete_key t k) db).1 ≡ none
          → find (exec (delete_key t k) db).0 c.table j
            ≡ (if str_eq k j then none else find db c.table j))
      → load c sql j db ≡ ok before
      → load c sql j (exec (delete_key t k) db).0 ≡ ok after
      → after ≡ elim (exec (delete_key t k) db).1 [
        | none ↦ if str_eq k j then none else before
        | some e ↦ before
      ]
  unfolding scan_row
  load_of_deleted k j db t before after gone h l =
      let q = load_found j db h in
      elim (Option-cases (exec (delete_key t k) db).1) [
        | inl e ↦ elim (Bool-cases (str_eq k j)) [
          | inl f ↦
              rw (e, f)
                (load_of_row j _ (gone e ∙ ap (λ b. if b then none else find db c.table j) f) refl
                  l)
          | inr f ↦
              rw (e, f)
                (load_of_row j _ (gone e ∙ ap (λ b. if b then none else find db c.table j) f) q l)
        ]
        | inr (m, e) ↦ rw e (load_of_row j _ (exec_failed (delete_key t k) db e c.table j) q l)
      ]

  -- What a read finds after a record of its kind is deleted.
  pub load-delete_key :
      (k j : Str) (db : Db) (before after : Option A)
      → load c sql j db ≡ ok before
      → load c sql j (exec (delete_key c.table k) db).0 ≡ ok after
      → after ≡ elim (exec (delete_key c.table k) db).1 [
        | none ↦ if str_eq k j then none else before
        | some e ↦ before
      ]
  load-delete_key k j db before after =
      load_of_deleted k j db c.table before after
        (λ e. delete_done c.table k db e c.table j ∙ (rw (same_table_refl c.table) refl))

  -- Where a kind of record is kept for each account, it is deleted with the account.
  pub load-delete_account :
      (k j : Str) (db : Db) (before after : Option A)
      → ((row : Option Row) → left_after accounts k c.table j row ≡ falls_with k row)
      → key_of c.table ≡ Column.account_id
      → load c sql j db ≡ ok before
      → load c sql j (exec (delete_key accounts k) db).0 ≡ ok after
      → after ≡ elim (exec (delete_key accounts k) db).1 [
        | none ↦ if str_eq k j then none else before
        | some e ↦ before
      ]
  load-delete_account k j db before after falls own =
      load_of_deleted k j db accounts before after (λ e.
        delete_done accounts k db e c.table j
        ∙ falls (find db c.table j)
        ∙ falls_with_key k j (find db c.table j)
            (λ r g. ap (λ f. r f) (sym own) ∙ find_key db c.table j g))
