-- ===== src/Auth.antt =====
-- internal/auth/auth.go: the service's state, sign-in, sign-out and refresh over the storage.
-- The keyring and the OAuth library are parameters: what the flow and the exchange of a refresh token
-- answer are arguments. Log lines are not modelled.

pub mod Scopes
pub mod Active
pub mod Service
pub mod Oauth
mod Examples
use googlysync.Prelude.{
  Bool, true, false, ◌≡◌, Option, none, some, [], Str, Result, ok, Time, zero_time,
}
use googlysync.Storage.Accounts.{Account}

-- `State`: the zero account where nobody is signed in
pub record State : Type 0 where
  pub signed_in : Bool
  pub account : Account

-- go-keyring: its entries, by service and user
pub record Keyring : Type 1 where
  pub Entries : Type 0
  pub set_entry : Str → Str → Str → Entries → Entries × Option Str
  pub get_entry : Str → Str → Entries → Result Str
  pub delete_entry : Str → Str → Entries → Entries × Option Str
  -- What is set is got back.
  pub set_done :
      (service user secret : Str) (ks : Entries)
      → (set_entry service user secret ks).1 ≡ none
      → get_entry service user (set_entry service user secret ks).0 ≡ ok secret

-- the claims of an identity token, and what is read of an OAuth token
pub record Claims : Type 0 where
  pub sub : Str
  pub email : Str
  pub name : Str

pub record Token : Type 0 where
  pub refresh_token : Str
  pub expiry : Time

abbrev pub signed_out : State
signed_out = record {
  signed_in = false;
  account = record {
    id = [];
    email = [];
    display_name = [];
    is_primary = false;
    created_at = zero_time;
    updated_at = zero_time;
  };
}
