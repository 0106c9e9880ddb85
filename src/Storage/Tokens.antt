-- ===== src/Storage/Tokens.antt =====
-- The token references of internal/storage/store.go: `UpsertTokenRef`, `GetTokenRef` and
-- `DeleteTokenRef`.
pub mod Kept
use googlysync.Prelude.{
  Option, none, some, List, [], ◌∷◌, if◌then◌else◌, Str, lit, is_empty, Result, ok, err, ◌>>=◌,
  Time, or_now,
}
use googlysync.Storage.Sql.{Value, text, integer, Column, token_refs, Engine, upsert, delete_key}
use googlysync.Storage.Records.{guarded, scan_row}
use googlysync.Storage.Times.{unix_time, from_unix}

pub record TokenRef : Type 0 where
  pub account_id : Str
  pub key_id : Str
  pub token_type : Str
  pub scope : Str
  pub expiry : Time
  pub updated_at : Time

abbrev pub token_columns : List Column
token_columns =
    Column.account_id ∷ Column.key_id ∷ Column.token_type ∷ Column.scope ∷ Column.expiry
    ∷ Column.updated_at ∷ []

abbrev pub token_sets : List Column
token_sets =
    Column.key_id ∷ Column.token_type ∷ Column.scope ∷ Column.expiry ∷ Column.updated_at ∷ []

abbrev pub stamp_token : TokenRef → Time → TokenRef
stamp_token ref now = record ref { updated_at = or_now ref.updated_at now }

abbrev pub token_args : TokenRef → List Value
token_args ref =
    text ref.account_id
    ∷ text ref.key_id
    ∷ text ref.token_type
    ∷ text ref.scope
    ∷ integer (unix_time ref.expiry)
    ∷ integer (unix_time ref.updated_at)
    ∷ []

unfoldable pub scan_token : List Value → Result TokenRef
scan_token (text a ∷ text k ∷ text t ∷ text s ∷ integer e ∷ integer u ∷ []) = ok (record {
  account_id = a;
  key_id = k;
  token_type = t;
  scope = s;
  expiry = from_unix e;
  updated_at = from_unix u;
})
scan_token vs = err (lit "sql: Scan error")

module _ (sql : Engine) where
  open sql use {Db, exec, query_key}

  unfoldable pub upsert_token_ref : Option TokenRef → Time → Db → Db × Option Str
  upsert_token_ref none now db = (db, none)
  upsert_token_ref (some ref) now db =
      guarded
        ((is_empty ref.account_id, lit "token_ref account_id cannot be empty")
          ∷ (is_empty ref.key_id, lit "token_ref key_id cannot be empty")
          ∷ [])
        db (exec (upsert token_refs token_columns (token_args (stamp_token ref now)) token_sets) db)

  unfoldable pub get_token_ref : Str → Db → Result (Option TokenRef)
  get_token_ref account_id db = do
    row ← query_key token_refs token_columns account_id db
    scan_row scan_token row

  unfoldable pub delete_token_ref : Str → Db → Db × Option Str
  delete_token_ref account_id db =
      guarded ((is_empty account_id, lit "token_ref account_id cannot be empty") ∷ []) db
        (exec (delete_key token_refs account_id) db)
