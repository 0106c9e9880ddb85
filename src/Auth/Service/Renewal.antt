-- ===== src/Auth/Service/Renewal.antt =====
-- A token refreshed after a sign-in of internal/auth/auth.go.
use googlysync.Prelude.{
  ℕ, inl, inr, false, ◌≡◌, refl, sym, ap, ◌∙◌, Option, none, some, List, arith, is_empty, Str,
  Result, Result-cases, ok, Time,
}
use googlysync.Config.{Config}
use googlysync.Storage.Sql.{Engine}
use googlysync.Storage.Tokens.{TokenRef, get_token_ref}
use googlysync.Auth.{Keyring, Claims, Token}
use googlysync.Auth.Service.{
  World, asked, keyring_service, keep_account, finish, sign_in, refresh_access_token,
}
use googlysync.Auth.Service.Session.{sign_in_kept}

module _ (sql : Engine) (ring : Keyring) (cfg : Config) where
  open ring use {get_entry}

  sign_in_checks :
      (scopes : List Str) (flow : List Str → Result (Option Token × Claims)) (clock : ℕ → Time)
      (w : World sql ring cfg)
      → (sign_in sql ring cfg scopes flow clock w).1 ≡ none
      → (is_empty cfg.oauth_client_id ≡ false)
        × (is_empty cfg.oauth_client_secret ≡ false)
        × ((finish sql ring cfg (flow (asked scopes)) (asked scopes) clock w).1 ≡ none)
  unfolding sign_in
  sign_in_checks scopes flow clock w h = ground arith

  keep_account_checks :
      (token : Token) (claims : Claims) (scopes : List Str) (clock : ℕ → Time)
      (w : World sql ring cfg)
      → (keep_account sql ring cfg token claims scopes clock w).1 ≡ none
      → is_empty claims.sub ≡ false
  unfolding keep_account
  keep_account_checks token claims scopes clock w h = ground arith

  refresh_token_lem :
      (id : Str) (exchange : Str → Result Token) (clock : ℕ → Time) (w : World sql ring cfg)
      (ref : TokenRef) (secret : Str)
      → is_empty id ≡ false
      → is_empty cfg.oauth_client_id ≡ false
      → is_empty cfg.oauth_client_secret ≡ false
      → get_token_ref sql id w.db ≡ ok (some ref)
      → get_entry (keyring_service cfg) id w.keys ≡ ok secret
      → (refresh_access_token sql ring cfg id exchange clock w).0 ≡ exchange secret
  unfolding refresh_access_token
  refresh_token_lem id exchange clock w ref secret a b c d e =
      elim (Result-cases (exchange secret)) [
        | inl (t, f) ↦ rw (refresh_access_token, a, b, c, d, e, f) refl
        | inr (m, f) ↦ rw (refresh_access_token, a, b, c, d, e, f) refl
      ]

  -- After a sign-in that succeeds, where the account's token reference can be read, a refresh for
  -- the account answers what the exchange answers to the refresh token of the sign-in.
  pub refresh_access_token-sign_in :
      (scopes : List Str) (flow : List Str → Result (Option Token × Claims))
      (clock later : ℕ → Time) (w : World sql ring cfg) (token : Token) (claims : Claims)
      (after : Option TokenRef) (exchange : Str → Result Token)
      → flow (asked scopes) ≡ ok (some token, claims)
      → (sign_in sql ring cfg scopes flow clock w).1 ≡ none
      → get_token_ref sql claims.sub (sign_in sql ring cfg scopes flow clock w).0.db ≡ ok after
      → (refresh_access_token sql ring cfg claims.sub exchange later
          (sign_in sql ring cfg scopes flow clock w).0).0
        ≡ exchange token.refresh_token
  unfolding finish
  refresh_access_token-sign_in scopes flow clock later w token claims after exchange f h k =
      let (_, secret, stored) =
        sign_in_kept sql ring cfg scopes flow clock w token claims after f h k in
      let (a, b, g) = sign_in_checks scopes flow clock w h in
      let e : finish sql ring cfg (flow (asked scopes)) (asked scopes) clock w
          ≡ keep_account sql ring cfg token claims (asked scopes) clock w =
        rw f refl in
      let c = keep_account_checks token claims (asked scopes) clock w (sym (ap (λ r. r.1) e) ∙ g) in
      refresh_token_lem claims.sub exchange later _ _ token.refresh_token c a b (k ∙ ap ok stored)
        secret
