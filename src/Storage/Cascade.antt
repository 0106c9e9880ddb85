-- ===== src/Storage/Cascade.antt =====
-- The rows that name their account by a foreign key, under `DeleteAccount` of
-- internal/storage/store.go.
use googlysync.Prelude.{
  true, false, ◌≡◌, ◌↔◌, refl, sym, subst, ap, ◌∙◌, Bool, Bool-cases, inl, inr, Option,
  Option-cases, none, some, List, Str, str_eq, if◌then◌else◌, Result, ok,
}
use googlysync.Storage.Sql.{
  Engine, Table, accounts, Column, Value, null, text, integer, Row, same_table, depends_on_account,
  project, account_of, falls_with, delete_key,
}
use googlysync.Storage.Accounts.{delete_account}

-- whether what an account has is gone after a deletion that returned an error or none
abbrev pub is_gone : Option Str → Str → Str → Bool
is_gone outcome id j = elim outcome [ none ↦ str_eq id j | some e ↦ false ]

falls_with-at :
    (id : Str) (r : Row) (v : Value)
    → r Column.account_id ≡ v
    → falls_with id (some r) ≡ elim v [
      | null ↦ some r
      | integer n ↦ some r
      | text b ↦ (if str_eq id b then none else some r)
    ]
falls_with-at id r null e = rw (falls_with, account_of, e) refl
falls_with-at id r (integer n) e = rw (falls_with, account_of, e) refl
falls_with-at id r (text b) e = rw (falls_with, account_of, e) refl

falls_with-kept :
    (id b : Str) (o : Option Row) (r : Row)
    → falls_with id o ≡ some r
    → r Column.account_id ≡ text b
    → (o ≡ some r) × (str_eq id b ≡ false)
falls_with-kept id b none r h e = cc
falls_with-kept id b (some q) r h e = of_value (q Column.account_id) refl
  where
    of_value : (v : Value) → q Column.account_id ≡ v → (some q ≡ some r) × (str_eq id b ≡ false)
    of_value null f = let g = falls_with-at id q null f in let k : some q ≡ some r = cc in cc
    of_value (integer n) f =
        let g = falls_with-at id q (integer n) f in let k : some q ≡ some r = cc in cc
    of_value (text c) f =
        let g = falls_with-at id q (text c) f in
        elim (Bool-cases (str_eq id c)) [
          | inl t ↦
              let z : none ≡ some r =
                subst (λ x. (if x then none else some q) ≡ some r) t (sym g ∙ h) in
              cc
          | inr t ↦
              let z : some q ≡ some r =
                subst (λ x. (if x then none else some q) ≡ some r) t (sym g ∙ h) in
              let same : r ≡ q = cc in
              let at : text c ≡ text b = sym f ∙ ap (λ x. x Column.account_id) (sym same) ∙ e in
              let u : str_eq id b ≡ false = cc in (z, u)
        ]

-- a row of a table reads as a record
abbrev pub Holds :
    {A : Type 0} (scan : List Value → Result A) (columns : List Column) (t : Table) (sql : Engine)
    → sql.Db
    → A
    → Type 0
Holds scan columns t sql db a =
    (k : Str) × (r : Row) × (sql.find db t k ≡ some r) × (scan (project columns r) ≡ ok a)

module _ {A : Type 0} (scan : List Value → Result A) (columns : List Column) (account : A → Str)
    (t : Table) (depends : depends_on_account t ≡ true) (other : same_table accounts t ≡ false)
    (located : (r : Row) (a : A)
      → scan (project columns r) ≡ ok a
      → r Column.account_id ≡ text (account a))
    (sql : Engine) where
  open sql use {Db, find, delete_done, exec_failed}

  find-deleted :
      (id : Str) (db : Db) (k : Str)
      → (delete_account sql id db).1 ≡ none
      → find (delete_account sql id db).0 t k ≡ falls_with id (find db t k)
  unfolding delete_account
  find-deleted id db k e = delete_done accounts id db e t k ∙ rw (other, depends) refl

  -- The records of an account that is deleted are gone, and those of other accounts stay.
  pub Holds-delete_account :
      (id : Str) (db : Db) (a : A)
      → Holds scan columns t sql (delete_account sql id db).0 a ↔ (
          Holds scan columns t sql db a
          × (is_gone (delete_account sql id db).1 id (account a) ≡ false))
  unfolding delete_account
  Holds-delete_account id db a = elim (Option-cases (delete_account sql id db).1) [
    | inr (x, e) ↦
        let same : (k : Str) → find (delete_account sql id db).0 t k ≡ find db t k =
          λ k. exec_failed (delete_key accounts id) db e t k in
        (
          (λ (k, r, g, s). ((k, r, sym (same k) ∙ g, s), rw e refl)),
          (λ ((k, r, g, s), n). (k, r, same k ∙ g, s)),
        )
    | inl e ↦ (
      (λ (k, r, g, s).
          let (f, n) =
            falls_with-kept id (account a) (find db t k) r (sym (find-deleted id db k e) ∙ g)
              (located r a s) in
          ((k, r, f, s), rw e n)),
      (λ ((k, r, g, s), n).
          let m : str_eq id (account a) ≡ false =
            subst (λ o. is_gone o id (account a) ≡ false) e n in
          (
            k,
            r,
            find-deleted id db k e
                ∙ ap (falls_with id) g
                ∙ falls_with-at id r (text (account a)) (located r a s)
                ∙ rw m refl,
            s,
          )),
    )
  ]
