-- ===== src/Auth/Active/First.antt =====
-- When `isFirstAccount` of internal/auth/auth.go holds.
use googlysync.Prelude.{
  true, false, ◌≡◌, refl, subst, ◌∙◌, Option, none, some, List, [], ◌∷◌, Memᴰ, ◌⊎◌, inl, inr, Str,
  ok, Result-cases, length, first_step,
}
use googlysync.Storage.Sql.{Engine, Row, Value, accounts, project}
use googlysync.Storage.Records.{scan_row}
use googlysync.Storage.Records.Listed.{query_list-Scanned, listed_row}
use googlysync.Storage.Accounts.{
  Account, account_columns, all_accounts, scan_account, get_account, list_accounts,
}
use googlysync.Auth.Active.{is_first_account}

module _ (sql : Engine) where
  open sql use {Db, find, query_key, query_key_done}

  found_account :
      (id : Str) (db : Db) (b : Account)
      → get_account sql id db ≡ ok (some b)
      → (r : Row) × (find db accounts id ≡ some r)
        × (scan_account (project account_columns r) ≡ ok b)
  unfolding get_account scan_row
  found_account id db b h =
      let (row, e, g) = first_step (query_key accounts account_columns id db) h in
      of_row (find db accounts id) refl row (query_key_done accounts account_columns id db e) g
    where
      of_row :
          (o : Option Row)
          → find db accounts id ≡ o
          → (row : Option (List Value))
          → row ≡ elim o [ none ↦ none | some r ↦ some (project account_columns r) ]
          → scan_row scan_account row ≡ ok (some b)
          → (r : Row) × (find db accounts id ≡ some r)
            × (scan_account (project account_columns r) ≡ ok b)
      of_row none e row h g =
          let g' : ok none ≡ ok (some b) = subst (λ z. scan_row scan_account z ≡ ok (some b)) h g in
          cc
      of_row (some r) e row h g =
          let g' : scan_row scan_account (some (project account_columns r)) ≡ ok (some b) =
            subst (λ z. scan_row scan_account z ≡ ok (some b)) h g in
          let (c, s, k) = first_step (scan_account (project account_columns r)) g' in
          let i : ok c ≡ ok b = cc in (r, e, s ∙ i)

  listed_account :
      (id : Str) (db : Db) (b : Account) (as' : List Account)
      → get_account sql id db ≡ ok (some b)
      → list_accounts sql db ≡ ok as'
      → Memᴰ b as'
  unfolding list_accounts
  listed_account id db b as' g l =
      let (r, f, e) = found_account id db b g in
      let (rows, s, found) =
        query_list-Scanned scan_account account_columns sql all_accounts db as' refl l in
      no_limit (
        listed_row scan_account account_columns none rows as' r b s e
          (found.complete id r f refl refl))
    where
      no_limit : Memᴰ b as' ⊎ (none ≡ some (length as')) → Memᴰ b as'
      no_limit (inl m) = m
      no_limit (inr n) = cc

  -- With an account in the database, no further one is the first.
  pub is_first_account-get_account :
      (id : Str) (db : Db) (b : Account)
      → get_account sql id db ≡ ok (some b)
      → is_first_account sql db ≡ false
  unfolding is_first_account
  is_first_account-get_account id db b g = elim (Result-cases (list_accounts sql db)) [
    | inl (as', l) ↦ rw (is_first_account, l) (some_listed as' (listed_account id db b as' g l))
    | inr (e, l) ↦ rw (is_first_account, l) refl
  ]
    where
      some_listed :
          (as' : List Account) → Memᴰ b as' → (elim as' [ [] ↦ true | a ∷ as'' ↦ false ]) ≡ false
      some_listed [] m = elim m [ ]
      some_listed (a ∷ as') m = refl
