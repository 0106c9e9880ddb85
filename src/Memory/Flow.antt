-- ===== src/Memory/Flow.antt =====
-- Calls that are functions, to run what is proved of internal/auth/oauth.go.
use googlysync.Prelude.{
  ℕ, suc, ◌-◌, false, ltb, ◌==◌, ◌≡◌, ◌≢◌, refl, ap, arith, none, some, [], ◌∷◌, map, Str, lit,
  str_eq, ok, err, if◌then◌else◌, zero_time,
}
use googlysync.Auth.{Token}
use googlysync.Auth.Oauth.{
  Calls, Query, request, callback, random_token, pkce_pair, open_browser, run_oauth_flow, claims_of,
  decode_jwt_claims, split_dots,
}
use googlysync.Auth.Oauth.Callback.{IsSigned, run_oauth_flow_ok, sign_in_forged}
use googlysync.Auth.Oauth.Jwt.{NoDot, join_dots, decode_jwt_claims-join_dots}
use googlysync.Auth.Service.{sign_in, new_service}
use googlysync.Memory.{memory, empty, today}
use googlysync.Memory.Sessions.{pocket, cfg}

-- a code whose bytes are no dots: the bytes from the dot on are moved up by one
up : ℕ → ℕ
up c = if ltb c 46 then c else suc c

down : ℕ → ℕ
down c = if ltb c 47 then c else c - 1

down-up : (c : ℕ) → down (up c) ≡ c
unfolding up down
down-up c = ground arith

map-down-up : (s : Str) → map down (map up s) ≡ s
map-down-up [] = refl
map-down-up (c ∷ s) = simp (down-up, map-down-up s)

up_no_dot : (c : ℕ) → (up c == b'.') ≡ false
unfolding up
up_no_dot c = ground arith

NoDot-up : (s : Str) → NoDot (map up s)
NoDot-up [] = tt
NoDot-up (c ∷ s) = (up_no_dot c, NoDot-up s)

abbrev token : Token
token = record { refresh_token = lit "r"; expiry = zero_time }

abbrev calls : Calls
unfolding up down
calls = record {
  rand_read = λ n size. ok (size ∷ n ∷ []);
  base64_encode = map up;
  base64_decode = λ s. ok (map down s);
  sha256 = λ s. s;
  listen_tcp = λ host. ok (lit "127.0.0.1:4");
  auth_code_url = λ c state params. lit "https://accounts.google.com";
  url_scheme = λ url. ok (lit "https");
  goos = lit "linux";
  look_path = λ s. none;
  start_command = λ s ss. none;
  exchange = λ c code verifier. ok token;
  id_token = λ t. some (lit "h.p.s");
  json_claims = λ s. ok (record { sub = s; email = []; name = [] });
  decode_encoded = λ s. ap ok (map-down-up s);
  encoded_bytes = NoDot-up;
}

abbrev returning : Query
returning = record { state = map up (16 ∷ 0 ∷ []); error = []; code = lit "c" }

run_oauth_flow_ok_example :
    (q : Query) × (request returning ≡ request q)
    × IsSigned calls cfg [] q token (claims_of calls token)
unfolding calls up run_oauth_flow random_token pkce_pair open_browser callback str_eq claims_of
    decode_jwt_claims split_dots
run_oauth_flow_ok_example =
    run_oauth_flow_ok calls cfg [] (request returning) token (claims_of calls token) refl

abbrev forged : Query
forged = record returning { state = lit "guess" }

sign_in_forged_example :
    ((sign_in memory pocket cfg []
        (λ ss. run_oauth_flow calls cfg ss (request forged))
        (λ n. today)
        (new_service memory pocket cfg empty (λ s u. err []))).0
      ≡ new_service memory pocket cfg empty (λ s u. err []))
    × ((sign_in memory pocket cfg []
          (λ ss. run_oauth_flow calls cfg ss (request forged))
          (λ n. today)
          (new_service memory pocket cfg empty (λ s u. err []))).1
        ≢ none)
unfolding calls up random_token
sign_in_forged_example =
    sign_in_forged calls memory pocket cfg [] forged (λ n. today)
      (new_service memory pocket cfg empty (λ s u. err [])) (map up (16 ∷ 0 ∷ [])) refl (λ h. cc)

decode_jwt_claims-join_dots_example :
    (decode_jwt_claims calls (join_dots (lit "h") (calls.base64_encode (lit "{}") ∷ lit "s" ∷ []))
      ≡ calls.json_claims (lit "{}"))
    × (decode_jwt_claims calls (lit "h") ≡ err (lit "invalid token format"))
decode_jwt_claims-join_dots_example =
    decode_jwt_claims-join_dots calls (lit "h") (lit "{}") (lit "s" ∷ []) (refl, tt)
      ((refl, tt), tt)
