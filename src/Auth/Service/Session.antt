-- ===== src/Auth/Service/Session.antt =====
-- What sign-in and sign-out of internal/auth/auth.go leave behind.
use googlysync.Prelude.{
  ℕ, Bool-cases, inl, inr, true, false, ◌≡◌, refl, sym, ap, ◌∙◌, Option, none, some, List, arith,
  if◌then◌else◌, is_empty, str_eq, Str, Result, ok, err, ok_injective, lit, Time,
}
use googlysync.Config.{Config}
use googlysync.Storage.Sql.{Engine}
use googlysync.Storage.Accounts.{Account, stamp_account, upsert_account, delete_account}
use googlysync.Storage.Tokens.{TokenRef, stamp_token, upsert_token_ref, get_token_ref}
use googlysync.Storage.Tokens.Kept.{get_token_ref-delete_account, kept_token, get_token_ref_stored}
use googlysync.Auth.{signed_out, Keyring, Claims, Token}
use googlysync.Auth.Active.{is_first_account}
use googlysync.Auth.Service.{
  World, asked, keyring_service, keep_secret, keep_token, keep_account, finish, sign_in, sign_out,
  account_of, token_ref_of,
}

module _ (sql : Engine) (ring : Keyring) (cfg : Config) where
  open ring use {set_entry, get_entry, set_done}

  keep_secret_failed :
      (account : Account) (secret : Str) (w : World sql ring cfg) (e : Str)
      → (keep_secret sql ring cfg account secret w).1 ≡ some e
      → (keep_secret sql ring cfg account secret w).0.state ≡ w.state
  unfolding keep_secret
  keep_secret_failed account secret w e h = ground arith

  keep_token_failed :
      (account : Account) (token : Token) (scopes : List Str) (clock : ℕ → Time)
      (w : World sql ring cfg) (e : Str)
      → (keep_token sql ring cfg account token scopes clock w).1 ≡ some e
      → (keep_token sql ring cfg account token scopes clock w).0.state ≡ w.state
  unfolding keep_token
  keep_token_failed account token scopes clock w e h =
      let (db, m) =
        upsert_token_ref sql (some (token_ref_of account.id token scopes (clock 3))) (clock 4)
          w.db in
      ground (arith, keep_secret_failed account token.refresh_token (record w { db = db }) e)

  keep_account_failed :
      (token : Token) (claims : Claims) (scopes : List Str) (clock : ℕ → Time)
      (w : World sql ring cfg) (e : Str)
      → (keep_account sql ring cfg token claims scopes clock w).1 ≡ some e
      → (keep_account sql ring cfg token claims scopes clock w).0.state ≡ w.state
  unfolding keep_account
  keep_account_failed token claims scopes clock w e h =
      let account = account_of claims (is_first_account sql w.db) clock in
      let (db, m) = upsert_account sql (some account) (clock 2) w.db in
      ground (
        arith,
        keep_token_failed (stamp_account account (clock 2)) token scopes clock
            (record w { db = db }) e,
      )

  flow_failed :
      (answer : Result (Option Token × Claims)) (scopes : List Str) (clock : ℕ → Time)
      (w : World sql ring cfg) (e : Str)
      → (finish sql ring cfg answer scopes clock w).1 ≡ some e
      → (finish sql ring cfg answer scopes clock w).0.state ≡ w.state
  unfolding finish
  flow_failed (err m) scopes clock w e h = refl
  flow_failed (ok (none, claims)) scopes clock w e h = refl
  flow_failed (ok (some token, claims)) scopes clock w e h =
      keep_account_failed token claims scopes clock w e h

  -- A sign-in that fails leaves the state of the service as it was.
  pub sign_in_failed :
      (scopes : List Str) (flow : List Str → Result (Option Token × Claims)) (clock : ℕ → Time)
      (w : World sql ring cfg) (e : Str)
      → (sign_in sql ring cfg scopes flow clock w).1 ≡ some e
      → (sign_in sql ring cfg scopes flow clock w).0.state ≡ w.state
  unfolding sign_in
  sign_in_failed scopes flow clock w e h =
      ground (arith, flow_failed (flow (asked scopes)) (asked scopes) clock w e)

  keep_secret_done :
      (account : Account) (secret : Str) (w : World sql ring cfg)
      → (keep_secret sql ring cfg account secret w).1 ≡ none
      → ((keep_secret sql ring cfg account secret w).0 ≡ record {
        db = w.db;
        keys = (set_entry (keyring_service cfg) account.id secret w.keys).0;
        state = record { signed_in = true; account = account };
      })
        × ((set_entry (keyring_service cfg) account.id secret w.keys).1 ≡ none)
  unfolding keep_secret
  keep_secret_done account secret w h = ground arith

  keep_token_done :
      (account : Account) (token : Token) (scopes : List Str) (clock : ℕ → Time)
      (w : World sql ring cfg)
      → (keep_token sql ring cfg account token scopes clock w).1 ≡ none
      → (keep_token sql ring cfg account token scopes clock w
          ≡ keep_secret sql ring cfg account token.refresh_token (record w {
            db =
                (upsert_token_ref sql
                  (some (token_ref_of account.id token scopes (clock 3)))
                  (clock 4)
                  w.db).0;
          }))
        × ((upsert_token_ref sql
              (some (token_ref_of account.id token scopes (clock 3)))
              (clock 4)
              w.db).1
            ≡ none)
  unfolding keep_token
  keep_token_done account token scopes clock w h = ground arith

  keep_account_done :
      (token : Token) (claims : Claims) (scopes : List Str) (clock : ℕ → Time)
      (w : World sql ring cfg)
      → (keep_account sql ring cfg token claims scopes clock w).1 ≡ none
      → keep_account sql ring cfg token claims scopes clock w
        ≡ keep_token sql ring cfg
            (stamp_account (account_of claims (is_first_account sql w.db) clock) (clock 2))
            token
            scopes
            clock
            (record w {
              db =
                  (upsert_account sql
                    (some (account_of claims (is_first_account sql w.db) clock))
                    (clock 2)
                    w.db).0;
            })
  unfolding keep_account
  keep_account_done token claims scopes clock w h = ground arith

  sign_in_done :
      (scopes : List Str) (flow : List Str → Result (Option Token × Claims)) (clock : ℕ → Time)
      (w : World sql ring cfg)
      → (sign_in sql ring cfg scopes flow clock w).1 ≡ none
      → sign_in sql ring cfg scopes flow clock w
        ≡ finish sql ring cfg (flow (asked scopes)) (asked scopes) clock w
  unfolding sign_in
  sign_in_done scopes flow clock w h = ground arith

  -- After a sign-in that succeeds, the state is signed in with the account of the claims, the keyring
  -- gives back the refresh token under the claims' subject, and the account's token reference reads
  -- with the scopes that were asked and the token's expiry in whole seconds.
  pub sign_in_kept :
      (scopes : List Str) (flow : List Str → Result (Option Token × Claims)) (clock : ℕ → Time)
      (w : World sql ring cfg) (token : Token) (claims : Claims) (after : Option TokenRef)
      → flow (asked scopes) ≡ ok (some token, claims)
      → (sign_in sql ring cfg scopes flow clock w).1 ≡ none
      → get_token_ref sql claims.sub (sign_in sql ring cfg scopes flow clock w).0.db ≡ ok after
      → ((sign_in sql ring cfg scopes flow clock w).0.state ≡ record {
        signed_in = true;
        account = stamp_account (account_of claims (is_first_account sql w.db) clock) (clock 2);
      })
        × (get_entry
              (keyring_service cfg)
              claims.sub
              (sign_in sql ring cfg scopes flow clock w).0.keys
            ≡ ok token.refresh_token)
        × (after
            ≡ some (
                kept_token
                  (stamp_token (token_ref_of claims.sub token (asked scopes) (clock 3)) (clock 4))))
  unfolding finish
  sign_in_kept scopes flow clock w token claims after f h k =
      let e₁ = sign_in_done scopes flow clock w h in
      let e₂ : finish sql ring cfg (flow (asked scopes)) (asked scopes) clock w
          ≡ keep_account sql ring cfg token claims (asked scopes) clock w =
        rw (f, finish) refl in
      let g = sym (ap (λ r. r.1) (e₁ ∙ e₂)) ∙ h in
      let e₃ = keep_account_done token claims (asked scopes) clock w g in
      let g₃ = sym (ap (λ r. r.1) e₃) ∙ g in
      let (e₄, stored) = keep_token_done _ token (asked scopes) clock _ g₃ in
      let (e₅, set) = keep_secret_done _ token.refresh_token _ (sym (ap (λ r. r.1) e₄) ∙ g₃) in
      let all = ap (λ r. r.0) (e₁ ∙ e₂ ∙ e₃ ∙ e₄) ∙ e₅ in
      (
        ap (λ x. x.state) all,
        ap (λ x. get_entry (keyring_service cfg) claims.sub x.keys) all ∙ set_done _ _ _ _ set,
        get_token_ref_stored sql _ (clock 4) _ after stored
            (sym (ap (λ x. get_token_ref sql claims.sub x.db) all) ∙ k),
      )

  sign_out_state :
      (id : Str) (w : World sql ring cfg)
      → (sign_out sql ring cfg id w).0.state
        ≡ elim (sign_out sql ring cfg id w).1 [ none ↦ signed_out | some e ↦ w.state ]
  unfolding sign_out
  sign_out_state id w = ground arith

  sign_out_db :
      (id : Str) (w : World sql ring cfg)
      → is_empty id ≡ false
      → ((sign_out sql ring cfg id w).0.db ≡ (delete_account sql id w.db).0)
        × ((sign_out sql ring cfg id w).1 ≡ (delete_account sql id w.db).1)
  unfolding sign_out
  sign_out_db id w h = ground arith

  sign_out_empty :
      (id : Str) (w : World sql ring cfg)
      → is_empty id ≡ true
      → (sign_out sql ring cfg id w ≡ (w, some (lit "account id is required")))
  unfolding sign_out
  sign_out_empty id w h = rw h refl

  -- After a sign-out that succeeds, nobody is signed in, whichever account was named, and the token
  -- reference of the account named is not found, while those of others read as before; one that
  -- fails changes neither the state nor the token references.
  pub sign_out_lem :
      (id : Str) (w : World sql ring cfg) (j : Str) (before after : Option TokenRef)
      → get_token_ref sql j w.db ≡ ok before
      → get_token_ref sql j (sign_out sql ring cfg id w).0.db ≡ ok after
      → ((sign_out sql ring cfg id w).0.state
          ≡ elim (sign_out sql ring cfg id w).1 [ none ↦ signed_out | some e ↦ w.state ])
        × (after ≡ elim (sign_out sql ring cfg id w).1 [
          | none ↦ if str_eq id j then none else before
          | some e ↦ before
        ])
  sign_out_lem id w j before after h k = (
    sign_out_state id w,
    elim (Bool-cases (is_empty id)) [
      | inl e ↦
          let q = sign_out_empty id w e in
          rw q (ok_injective (sym k ∙ ap (λ r. get_token_ref sql j r.0.db) q ∙ h))
      | inr e ↦
          let (d, m) = sign_out_db id w e in
          rw m (
            get_token_ref-delete_account sql id w.db j before after h
              (sym (ap (λ x. get_token_ref sql j x) d) ∙ k))
    ],
  )
