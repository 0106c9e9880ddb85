-- ===== src/Storage/Tokens/Kept.antt =====
-- What `GetTokenRef` of internal/storage/store.go finds after the other operations.
use googlysync.Prelude.{◌≡◌, refl, Option, none, some, if◌then◌else◌, Str, str_eq, ok, Time}
use googlysync.Storage.Sql.{text, Column, Row, token_refs, bind, merge_row, Engine}
use googlysync.Storage.Records.{Codec, scan_row, read_row}
use googlysync.Storage.Records.Kept.{load-save, load-delete_account, load_saved}
use googlysync.Storage.Accounts.{delete_account}
use googlysync.Storage.Times.{kept_time, from_unix-unix_time}
use googlysync.Storage.Tokens.{
  TokenRef, token_columns, token_sets, token_args, stamp_token, scan_token, upsert_token_ref,
  get_token_ref,
}

-- The reference as it reads back.
abbrev pub kept_token : TokenRef → TokenRef
kept_token ref = record ref { expiry = kept_time ref.expiry; updated_at = kept_time ref.updated_at }

-- Each column but the key is replaced, whatever stood in the row.
row_replaced :
    (row : Option Row) (ref : TokenRef)
    → ((r : Row) → row ≡ some r → r Column.account_id ≡ text ref.account_id)
    → read_row scan_token token_columns
        (some (merge_row token_sets row (bind token_columns (token_args ref))))
      ≡ ok (some (kept_token ref))
unfolding scan_token scan_row
row_replaced none ref k = simp from_unix-unix_time
row_replaced (some r) ref k = rw (k r refl) (simp from_unix-unix_time)

token_codec : Codec TokenRef
token_codec = record {
  table = token_refs;
  columns = token_columns;
  sets = token_sets;
  key = λ ref. ref.account_id;
  args = token_args;
  scan = scan_token;
  over = λ old ref. kept_token ref;
  keyed = λ ref. refl;
  merged = λ row ref x k h. row_replaced row ref k;
}

module _ (sql : Engine) where
  open sql use {Db}

  -- After `UpsertTokenRef` has stored a token reference, `GetTokenRef` finds it for its account, with
  -- its times cut to seconds, and finds those of other accounts as before. After an `UpsertTokenRef`
  -- that fails, it finds all of them as before.
  pub get_token_ref-upsert_token_ref :
      (ref : TokenRef) (now : Time) (db : Db) (j : Str) (before after : Option TokenRef)
      → get_token_ref sql j db ≡ ok before
      → get_token_ref sql j (upsert_token_ref sql (some ref) now db).0 ≡ ok after
      → after ≡ elim (upsert_token_ref sql (some ref) now db).1 [
        | none ↦ if str_eq ref.account_id j then some (kept_token (stamp_token ref now)) else before
        | some e ↦ before
      ]
  unfolding get_token_ref upsert_token_ref token_codec
  get_token_ref-upsert_token_ref ref now db = load-save token_codec sql _ (stamp_token ref now) db

  -- After a `DeleteAccount` that succeeds, `GetTokenRef` finds no reference for the account, since
  -- the rows of token_refs fall with it, and finds those of other accounts as before; after one that
  -- fails, it finds all of them as before.
  pub get_token_ref-delete_account :
      (id : Str) (db : Db) (j : Str) (before after : Option TokenRef)
      → get_token_ref sql j db ≡ ok before
      → get_token_ref sql j (delete_account sql id db).0 ≡ ok after
      → after ≡ elim (delete_account sql id db).1 [
        | none ↦ if str_eq id j then none else before
        | some e ↦ before
      ]
  unfolding get_token_ref delete_account token_codec
  get_token_ref-delete_account id db j before after =
      load-delete_account token_codec sql id j db before after (λ row. refl) refl

  -- A reference that has been stored is found, whatever was there.
  pub get_token_ref_stored :
      (ref : TokenRef) (now : Time) (db : Db) (after : Option TokenRef)
      → (upsert_token_ref sql (some ref) now db).1 ≡ none
      → get_token_ref sql ref.account_id (upsert_token_ref sql (some ref) now db).0 ≡ ok after
      → after ≡ some (kept_token (stamp_token ref now))
  unfolding get_token_ref upsert_token_ref token_codec
  get_token_ref_stored ref now db after =
      load_saved token_codec sql _ (stamp_token ref now) _ db after
        (λ row. row_replaced row (stamp_token ref now))
