-- ===== src/Storage/Accounts/Roundtrip.antt =====
-- What `GetAccount` of internal/storage/store.go returns after `UpsertAccount`.
use googlysync.Prelude.{
  ◌≡◌, refl, ap, Option, none, some, [], ◌∷◌, if◌then◌else◌, Str, str_eq, Result, ok, err,
  first_step, Time, ℤ, zero_time,
}
use googlysync.Storage.Sql.{
  Value, text, integer, Column, Row, accounts, bind, merge_row, project, Engine,
}
use googlysync.Storage.Records.{Codec, scan_row, read_row}
use googlysync.Storage.Records.Kept.{load-save, load-delete_key}
use googlysync.Storage.Times.{from_unix, int_to_bool-bool_to_int, kept_time, from_unix-unix_time}
use googlysync.Storage.Accounts.{
  Account, account_columns, account_sets, account_args, stamp_account, scan_account, upsert_account,
  get_account, delete_account,
}

-- The account as it reads back: its times cut to seconds.
abbrev pub kept_account : Account → Account
kept_account a = record a {
  created_at = kept_time a.created_at;
  updated_at = kept_time a.updated_at;
}

-- Where the account was there before, its time of creation is kept.
abbrev pub stored_over : Option Account → Account → Account
stored_over none a = kept_account a
stored_over (some old) a = record (kept_account a) { created_at = old.created_at }

scan_account-args : (a : Account) → scan_account (account_args a) ≡ ok (kept_account a)
unfolding scan_account
scan_account-args a =
    rw (int_to_bool-bool_to_int, from_unix-unix_time a.created_at, from_unix-unix_time a.updated_at)
      refl

-- A row that scans has its time of creation in the fifth place.
created_of :
    (v₁ v₂ v₃ v₄ v₅ v₆ : Value) (old : Account)
    → scan_account (v₁ ∷ v₂ ∷ v₃ ∷ v₄ ∷ v₅ ∷ v₆ ∷ []) ≡ ok old
    → (c : ℤ) × (v₅ ≡ integer c) × (from_unix c ≡ old.created_at)
unfolding scan_account
created_of (text i) (text m) (text d) (integer p) (integer c) (integer u) old h =
    (c, refl, ap created h)
  where
    created : Result Account → Time
    created (ok a) = a.created_at
    created (err e) = zero_time
created_of v₁ v₂ v₃ v₄ v₅ v₆ old h = cc

-- the row after the write, of a row that scans
scan_merged :
    (r : Row) (a old : Account)
    → r Column.id ≡ text a.id
    → scan_account (project account_columns r) ≡ ok old
    → scan_account (
        project account_columns
          (merge_row account_sets (some r) (bind account_columns (account_args a))))
      ≡ ok (stored_over (some old) a)
unfolding scan_account
scan_merged r a old k h =
    let (c, e, q) = created_of _ _ _ _ _ _ old h in
    rw (k, e, q, int_to_bool-bool_to_int, from_unix-unix_time a.updated_at) refl

row_merged :
    (row : Option Row) (a : Account) (x : Option Account)
    → ((r : Row) → row ≡ some r → r Column.id ≡ text a.id)
    → read_row scan_account account_columns row ≡ ok x
    → read_row scan_account account_columns
        (some (merge_row account_sets row (bind account_columns (account_args a))))
      ≡ ok (some (stored_over x a))
unfolding scan_row
row_merged none a none k h = rw (scan_account-args a) refl
row_merged none a (some y) k h = cc
row_merged (some r) a x k h =
    let (old, e, q) = first_step (scan_account (project account_columns r)) h in
    rw (scan_merged r a old (k r refl) e)
      (ap (λ x. elim x [ ok o ↦ ok (some (stored_over o a)) | err m ↦ err m ]) q)

account_codec : Codec Account
account_codec = record {
  table = accounts;
  columns = account_columns;
  sets = account_sets;
  key = λ a. a.id;
  args = account_args;
  scan = scan_account;
  over = stored_over;
  keyed = λ a. refl;
  merged = row_merged;
}

module _ (sql : Engine) where
  open sql use {Db}

  -- After `UpsertAccount` has stored an account, `GetAccount` finds it with its times cut to
  -- seconds and, where one of that id was there, that one's time of creation; the other accounts
  -- read as before. After an `UpsertAccount` that fails, every account reads as before.
  pub get_account-upsert_account :
      (a : Account) (now : Time) (db : Db) (j : Str) (before after : Option Account)
      → get_account sql j db ≡ ok before
      → get_account sql j (upsert_account sql (some a) now db).0 ≡ ok after
      → after ≡ elim (upsert_account sql (some a) now db).1 [
        | none ↦ if str_eq a.id j then some (stored_over before (stamp_account a now)) else before
        | some e ↦ before
      ]
  unfolding get_account upsert_account account_codec
  get_account-upsert_account a now db = load-save account_codec sql _ (stamp_account a now) db

  -- After a `DeleteAccount` that succeeds, `GetAccount` does not find the account, and finds the
  -- others as before; after one that fails, every account reads as before.
  pub get_account-delete_account :
      (id : Str) (db : Db) (j : Str) (before after : Option Account)
      → get_account sql j db ≡ ok before
      → get_account sql j (delete_account sql id db).0 ≡ ok after
      → after ≡ elim (delete_account sql id db).1 [
        | none ↦ if str_eq id j then none else before
        | some e ↦ before
      ]
  unfolding get_account delete_account account_codec
  get_account-delete_account id db j = load-delete_key account_codec sql id j db
