-- ===== src/Auth/Service.antt =====
-- The service of internal/auth/auth.go: `NewService`, `SignIn`, `SignOut` and `RefreshAccessToken`.
pub mod Session
pub mod Primary
pub mod Renewal
use googlysync.Prelude.{
  Bool, true, false, ◌||◌, ◌&&◌, ◌==◌, ◌≡◌, Option, none, some, List, [], ◌∷◌, if◌then◌else◌,
  length, Str, lit, is_empty, zero_time, ℕ, Result, ok, err, ◌>>=◌, Time,
}
use googlysync.Config.{Config}
use googlysync.Auth.Scopes.{scope_string}
use googlysync.Storage.Sql.{Engine}
use googlysync.Storage.Accounts.{
  Account, stamp_account, upsert_account, list_accounts, delete_account,
}
use googlysync.Storage.Tokens.{TokenRef, upsert_token_ref, get_token_ref, delete_token_ref}
use googlysync.Auth.{State, Keyring, Claims, Token, signed_out}
use googlysync.Auth.Active.{is_first_account, find_active_account}

-- what `NewService` says of the pointers that it is given
unfoldable pub missing_part {ℓ κ μ} :
    {A : Type ℓ} {B : Type κ} {C : Type μ} → Option A → Option B → Option C → Option Str
missing_part none cfg store = some (lit "auth: logger is required")
missing_part (some logger) none store = some (lit "auth: config is required")
missing_part (some logger) (some cfg) none = some (lit "auth: storage is required")
missing_part (some logger) (some cfg) (some store) = none

-- `krSvc` of `NewService`
abbrev keyring_service : Config → Str
keyring_service cfg = if is_empty cfg.app_name then lit "googlysync" else cfg.app_name

abbrev pub default_scopes : List Str
default_scopes =
    lit "openid" ∷ lit "email" ∷ lit "profile" ∷ lit "https://www.googleapis.com/auth/drive" ∷ []

abbrev pub asked : List Str → List Str
asked [] = default_scopes
asked (s ∷ ss) = s ∷ ss

abbrev pub token_ref_of : Str → Token → List Str → Time → TokenRef
token_ref_of account_id token scopes now = record {
  account_id = account_id;
  key_id = account_id;
  token_type = lit "refresh";
  scope = scope_string scopes;
  expiry = token.expiry;
  updated_at = now;
}

abbrev pub account_of : Claims → Bool → (ℕ → Time) → Account
account_of claims first clock = record {
  id = claims.sub;
  email = claims.email;
  display_name = claims.name;
  is_primary = first;
  created_at = clock 0;
  updated_at = clock 1;
}

module _ (sql : Engine) (ring : Keyring) (cfg : Config) where
  open sql use {Db}
  open ring use {Entries, set_entry, get_entry, delete_entry}

  -- what the service changes: the database, the keyring and its state
  pub record World : Type 0 where
    pub db : Db
    pub keys : Entries
    pub state : State

  -- `NewService`, of what it is given
  unfoldable pub new_service : Db → Entries → World
  new_service db keys = record {
    db = db;
    keys = keys;
    state = elim (find_active_account sql db) [
      | none ↦ signed_out
      | some a ↦ record { signed_in = true; account = a }
    ];
  }

  -- `SignIn` from the keyring on: a secret that is not kept takes the reference back.
  unfoldable pub keep_secret : Account → Str → World → World × Option Str
  keep_secret account secret w =
      let (keys, e) = set_entry (keyring_service cfg) account.id secret w.keys in
      elim e [
        | none ↦
            (record w { keys = keys; state = record { signed_in = true; account = account } }, none)
        | some m ↦ (record w { keys = keys; db = (delete_token_ref sql account.id w.db).0 }, some m)
      ]

  -- `SignIn` from the refresh token on
  unfoldable pub keep_token : Account → Token → List Str → (ℕ → Time) → World → World × Option Str
  keep_token account token scopes clock w =
      if is_empty token.refresh_token
      then (w, some (lit "refresh token missing; re-auth with consent"))
      else (let (db, e) =
            upsert_token_ref sql (some (token_ref_of account.id token scopes (clock 3))) (clock 4)
              w.db in
          elim e [
            | none ↦ keep_secret account token.refresh_token (record w { db = db })
            | some m ↦ (record w { db = db }, some m)
          ])

  -- `SignIn` from the claims on; `UpsertAccount` stamps the account that it is given.
  unfoldable pub keep_account : Token → Claims → List Str → (ℕ → Time) → World → World × Option Str
  keep_account token claims scopes clock w =
      if is_empty claims.sub
      then (w, some (lit "oauth sub claim missing"))
      else (let account = account_of claims (is_first_account sql w.db) clock in
          let (db, e) = upsert_account sql (some account) (clock 2) w.db in
          elim e [
            | none ↦
                keep_token (stamp_account account (clock 2)) token scopes clock
                  (record w { db = db })
            | some m ↦ (record w { db = db }, some m)
          ])

  -- `SignIn` from the flow's answer on, which may come without a token
  unfoldable pub finish :
      Result (Option Token × Claims) → List Str → (ℕ → Time) → World → World × Option Str
  finish (err e) scopes clock w = (w, some e)
  finish (ok (none, claims)) scopes clock w = (w, some (lit "oauth token missing"))
  finish (ok (some token, claims)) scopes clock w = keep_account token claims scopes clock w

  unfoldable pub sign_in :
      List Str
      → (List Str → Result (Option Token × Claims))
      → (ℕ → Time)
      → World
      → World × Option Str
  sign_in scopes flow clock w =
      if is_empty cfg.oauth_client_id
      then (w, some (lit "oauth client id not configured"))
      else if is_empty cfg.oauth_client_secret
      then (w, some (lit "oauth client secret not configured"))
      else finish (flow (asked scopes)) (asked scopes) clock w

  -- `SignOut`: the keyring's answer is ignored.
  unfoldable pub sign_out : Str → World → World × Option Str
  sign_out account_id w =
      if is_empty account_id
      then (w, some (lit "account id is required"))
      else (let keys = (delete_entry (keyring_service cfg) account_id w.keys).0 in
          let (db, e) = delete_account sql account_id w.db in
          elim e [
            | none ↦ (record { db = db; keys = keys; state = signed_out }, none)
            | some m ↦ (record w { db = db; keys = keys }, some m)
          ])

  -- `RefreshAccessToken`: the new token, and the database; that the reference is not updated is
  -- only logged.
  unfoldable pub refresh_access_token :
      Str → (Str → Result Token) → (ℕ → Time) → World → Result Token × World
  refresh_access_token account_id exchange clock w =
      if is_empty account_id
      then (err (lit "account id is required"), w)
      else if is_empty cfg.oauth_client_id || is_empty cfg.oauth_client_secret
      then (err (lit "oauth client not configured"), w)
      else elim (get_token_ref sql account_id w.db) [
        | err e ↦ (err e, w)
        | ok none ↦ (err (lit "no token reference found"), w)
        | ok (some ref) ↦ elim (get_entry (keyring_service cfg) account_id w.keys) [
          | err e ↦ (err e, w)
          | ok secret ↦ elim (exchange secret) [
            | err e ↦ (err e, w)
            | ok token ↦
                let ref' = record ref { expiry = token.expiry; updated_at = clock 0 } in
                (ok token, record w { db = (upsert_token_ref sql (some ref') (clock 1) w.db).0 })
          ]
        ]
      ]
