-- ===== src/Auth/Active.antt =====
-- The choice of an account in internal/auth/auth.go: `isFirstAccount` and `findActiveAccount`.
pub mod Choice
pub mod First
use googlysync.Prelude.{
  Bool, true, false, ◌||◌, ◌&&◌, ◌==◌, ◌≡◌, Option, none, some, List, [], ◌∷◌, if◌then◌else◌,
  length, Str, lit, is_empty, zero_time, ℕ, Result, ok, err, ◌>>=◌, Time,
}
use googlysync.Config.{Config}
use googlysync.Auth.Scopes.{scope_string}
use googlysync.Storage.Sql.{Engine}
use googlysync.Storage.Accounts.{
  Account, stamp_account, upsert_account, list_accounts, delete_account,
}
use googlysync.Storage.Tokens.{TokenRef, upsert_token_ref, get_token_ref, delete_token_ref}

unfoldable pub first_primary : List Account → Option Account
first_primary [] = none
first_primary (a ∷ as') = let rest = first_primary as' in if a.is_primary then some a else rest

-- The first primary candidate, or the first one.
unfoldable pub choose : List Account → Option Account
choose [] = none
choose (a ∷ as') = elim (first_primary (a ∷ as')) [ none ↦ some a | some p ↦ some p ]

module _ (sql : Engine) where
  open sql use {Db}

  -- Whether a listed account is a candidate: it has a reference, and reading that was no error.
  unfoldable pub has_ref : Db → Account → Bool
  has_ref db a = elim (get_token_ref sql a.id db) [
    | err e ↦ false
    | ok none ↦ false
    | ok (some ref) ↦ true
  ]

  unfoldable pub is_first_account : Db → Bool
  is_first_account db = elim (list_accounts sql db) [
    | err e ↦ false
    | ok [] ↦ true
    | ok (a ∷ as') ↦ false
  ]

  unfoldable pub candidates : Db → List Account → List Account
  candidates db [] = []
  candidates db (a ∷ as') = let rest = candidates db as' in if has_ref db a then a ∷ rest else rest

  unfoldable pub find_active_account : Db → Option Account
  find_active_account db = elim (list_accounts sql db) [
    | err e ↦ none
    | ok as' ↦ choose (candidates db as')
  ]
