-- ===== src/Auth/Oauth.antt =====
-- internal/auth/oauth.go: the flow by which a user signs in, from the random tokens to the claims.
-- The random source, the hash, the codecs, the network, the browser and the OAuth library are
-- parameters. What the select of the flow meets first is an argument, the event.
pub mod Callback
pub mod Jwt
pub mod Requests
use googlysync.Prelude.{
  ℕ, zero, suc, Bool, true, false, ◌||◌, ◌&&◌, ◌==◌, not, ◌≡◌, All, Option, none, some, List, [],
  ◌∷◌, ◌++◌, if◌then◌else◌, Str, lit, is_empty, str_eq, Result, ok, err, ◌>>=◌,
}
use googlysync.Config.{Config}
use googlysync.Auth.{Claims, Token}

-- `oauth2.Config`, with the endpoint of Google
pub record OauthConfig : Type 0 where
  pub client_id : Str
  pub client_secret : Str
  pub redirect_url : Str
  pub scopes : List Str

-- The calls that the flow makes.
pub record Calls : Type 0 where
  -- `rand.Read`: the bytes of the first, the second, … reading, of so many bytes
  pub rand_read : ℕ → ℕ → Result Str
  -- `base64.RawURLEncoding`
  pub base64_encode : Str → Str
  pub base64_decode : Str → Result Str
  pub sha256 : Str → Str
  -- the address of a listener on a free port of a host
  pub listen_tcp : Str → Result Str
  -- the URL of a state and of further parameters
  pub auth_code_url : OauthConfig → Str → List (Str × Str) → Str
  pub url_scheme : Str → Result Str
  pub goos : Str
  pub look_path : Str → Option Str
  pub start_command : Str → List Str → Option Str
  -- the token of a code and a verifier
  pub exchange : OauthConfig → Str → Str → Result Token
  -- `token.Extra("id_token").(string)`
  pub id_token : Token → Option Str
  pub json_claims : Str → Result Claims
  -- What is encoded is decoded, and its bytes are letters, digits, `-` and `_`.
  pub decode_encoded : (s : Str) → base64_decode (base64_encode s) ≡ ok s
  pub encoded_bytes : (s : Str) → All (λ c. (c == b'.') ≡ false) (base64_encode s)

-- what a request to the callback asks, where a missing value is empty
pub record Query : Type 0 where
  pub state : Str
  pub error : Str
  pub code : Str

pub data Event : Type 0 where
  -- `ctx.Done()`, with the context's error
  cancelled : Str → Event
  -- `server.Serve` has failed.
  serve_failed : Str → Event
  -- a request to the callback
  request : Query → Event

-- The callback: the status and text that it answers, and what it sends to the flow.
unfoldable pub callback : Str → Query → (ℕ × Str) × Result Str
callback state q =
    if not (str_eq q.state state)
    then ((400, lit "state mismatch"), err (lit "oauth state mismatch"))
    else if not (is_empty q.error)
    then ((400, lit "oauth error"), err (lit "oauth error: " ++ q.error))
    else if is_empty q.code
    then ((400, lit "missing code"), err (lit "oauth code missing"))
    else ((200, lit "Authentication complete. You can close this window."), ok q.code)

-- the select
abbrev pub received : Str → Event → Result Str
received state (cancelled e) = err e
received state (serve_failed e) = err e
received state (request q) = (callback state q).1

-- an error as the outcome of a step
abbrev pub step : Option Str → Result (Unit {0})
step none = ok tt
step (some e) = err e

module _ (calls : Calls) where
  open calls use {
    rand_read, base64_encode, base64_decode, sha256, listen_tcp, auth_code_url, url_scheme, goos,
    look_path, start_command, exchange, id_token, json_claims,
  }

  unfoldable pub random_token : ℕ → ℕ → Result Str
  random_token reading size = do buf ← rand_read reading size; ok (base64_encode buf)

  unfoldable pub pkce_pair : Result (Str × Str)
  unfolding random_token
  pkce_pair = do verifier ← random_token 1 32; ok (verifier, base64_encode (sha256 verifier))

  -- `switch runtime.GOOS`
  abbrev pub start_browser : Str → Result (Unit {0})
  start_browser url =
      if str_eq goos (lit "darwin")
      then step (start_command (lit "open") (url ∷ []))
      else if str_eq goos (lit "windows")
      then step (start_command (lit "rundll32") (lit "url.dll,FileProtocolHandler" ∷ url ∷ []))
      else elim (look_path (lit "xdg-open")) [
        | some e ↦ err (lit "xdg-open not found: " ++ e)
        | none ↦ step (start_command (lit "xdg-open") (url ∷ []))
      ]

  unfoldable pub open_browser : Str → Result (Unit {0})
  open_browser url = elim (url_scheme url) [
    | err e ↦ err (lit "invalid url: " ++ e)
    | ok scheme ↦
        if not (str_eq scheme (lit "http")) && not (str_eq scheme (lit "https"))
        then err (lit "invalid url scheme: " ++ scheme)
        else start_browser url
  ]

  -- `strings.Split(token, ".")`, from a piece on
  unfoldable pub split_dots : Str → Str → List Str
  split_dots piece [] = piece ∷ []
  split_dots piece (c ∷ s) = elim (c == b'.') [
    | true ↦ piece ∷ split_dots [] s
    | false ↦ split_dots (piece ++ c ∷ []) s
  ]

  abbrev pub decode_payload : List Str → Result Claims
  decode_payload [] = err (lit "invalid token format")
  decode_payload (p ∷ []) = err (lit "invalid token format")
  decode_payload (p ∷ payload ∷ parts) = do text ← base64_decode payload; json_claims text

  unfoldable pub decode_jwt_claims : Str → Result Claims
  unfolding split_dots
  decode_jwt_claims token = decode_payload (split_dots [] token)

  abbrev pub no_claims : Claims
  no_claims = record { sub = []; email = []; name = [] }

  abbrev pub or_none : Result Claims → Claims
  or_none (ok c) = c
  or_none (err e) = no_claims

  -- The claims of the identity token, none where it is missing or cannot be read.
  unfoldable pub claims_of : Token → Claims
  unfolding decode_jwt_claims
  claims_of token = elim (id_token token) [
    | none ↦ no_claims
    | some raw ↦ if is_empty raw then no_claims else or_none (decode_jwt_claims raw)
  ]

  abbrev pub oauth_config : Config → Str → List Str → OauthConfig
  oauth_config cfg address scopes = record {
    client_id = cfg.oauth_client_id;
    client_secret = cfg.oauth_client_secret;
    redirect_url = lit "http://" ++ address ++ lit "/oauth/callback";
    scopes = scopes;
  }

  abbrev pub auth_params : Str → List (Str × Str)
  auth_params challenge =
      (lit "access_type", lit "offline")
      ∷ (lit "prompt", lit "consent")
      ∷ (lit "code_challenge_method", lit "S256")
      ∷ (lit "code_challenge", challenge)
      ∷ []

  unfoldable pub run_oauth_flow : Config → List Str → Event → Result (Option Token × Claims)
  unfolding random_token pkce_pair open_browser claims_of callback
  run_oauth_flow cfg scopes event = do
    state ← random_token 0 16
    pair ← pkce_pair
    address ← listen_tcp cfg.oauth_redirect_host
    opened ←
        open_browser (auth_code_url (oauth_config cfg address scopes) state (auth_params pair.1))
    code ← received state event
    token ← exchange (oauth_config cfg address scopes) code pair.0
    ok (some token, claims_of token)
