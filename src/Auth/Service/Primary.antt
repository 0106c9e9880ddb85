-- ===== src/Auth/Service/Primary.antt =====
-- Which accounts `SignIn` of internal/auth/auth.go makes primary.
use googlysync.Prelude.{ℕ, false, ◌≡◌, ap, ◌∙◌, Option, some, none, List, Str, Result, ok, Time}
use googlysync.Config.{Config}
use googlysync.Storage.Sql.{Engine}
use googlysync.Storage.Accounts.{Account, get_account}
use googlysync.Storage.Tokens.{TokenRef, get_token_ref}
use googlysync.Auth.{Keyring, Claims, Token}
use googlysync.Auth.Active.First.{is_first_account-get_account}
use googlysync.Auth.Service.{World, asked, sign_in}
use googlysync.Auth.Service.Session.{sign_in_kept}

module _ (sql : Engine) (ring : Keyring) (cfg : Config) where
  -- Where the database holds any account, as it does after the migrations, which insert the account
  -- `default`, a sign-in that succeeds leaves an account signed in that is not primary, be it new or
  -- the very account that was primary so far.
  pub sign_in_unprimary :
      (scopes : List Str) (flow : List Str → Result (Option Token × Claims)) (clock : ℕ → Time)
      (w : World sql ring cfg) (token : Token) (claims : Claims) (after : Option TokenRef)
      (id : Str) (b : Account)
      → get_account sql id w.db ≡ ok (some b)
      → flow (asked scopes) ≡ ok (some token, claims)
      → (sign_in sql ring cfg scopes flow clock w).1 ≡ none
      → get_token_ref sql claims.sub (sign_in sql ring cfg scopes flow clock w).0.db ≡ ok after
      → (sign_in sql ring cfg scopes flow clock w).0.state.account.is_primary ≡ false
  sign_in_unprimary scopes flow clock w token claims after id b g f h k =
      ap (λ s. s.account.is_primary)
        (sign_in_kept sql ring cfg scopes flow clock w token claims after f h k).0
      ∙ is_first_account-get_account sql id w.db b g
