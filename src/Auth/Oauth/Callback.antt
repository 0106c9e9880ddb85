-- ===== src/Auth/Oauth/Callback.antt =====
-- Which answers of the browser the flow of internal/auth/oauth.go takes.
use googlysync.Prelude.{
  Bool, true, false, Bool-cases, inl, inr, ◌≡◌, ◌≢◌, refl, sym, ap, ◌∙◌, Option, none, some, List,
  [], ◌∷◌, ◌++◌, Str, lit, is_empty, str_eq, str_eq_iff, Result, ok, err, first_step, ok_injective,
  ℕ, Time, if◌then◌else◌,
}
use googlysync.Config.{Config}
use googlysync.Storage.Sql.{Engine}
use googlysync.Auth.{Claims, Token, Keyring}
use googlysync.Auth.Oauth.{
  Calls, Query, Event, cancelled, serve_failed, request, callback, received, random_token,
  pkce_pair, open_browser, claims_of, oauth_config, run_oauth_flow,
}
use googlysync.Auth.Service.{World, sign_in, finish, asked}

abbrev pub IsAccepted : Str → Query → Type 0
IsAccepted state q = (q.state ≡ state) × (q.error ≡ []) × (q.code ≢ [])

nonempty : (s : Str) → is_empty s ≡ false → s ≢ []
nonempty s h e = let f : true ≡ false = sym (ap is_empty e) ∙ h in cc

empty : (s : Str) → is_empty s ≡ true → s ≡ []
empty [] h = refl
empty (c ∷ s) h = cc

text_full : (s : Str) → s ≢ [] → is_empty s ≡ false
text_full [] h = elim (h refl) [ ]
text_full (c ∷ s) h = refl

callback_tests :
    (state : Str) (q : Query) (code : Str)
    → (callback state q).1 ≡ ok code
    → (str_eq q.state state ≡ true)
      × (is_empty q.error ≡ true)
      × (is_empty q.code ≡ false)
      × (q.code ≡ code)
unfolding callback
callback_tests state q code h = elim (Bool-cases (str_eq q.state state)) [
  | inr a ↦ let g : err (lit "oauth state mismatch") ≡ ok code = sym (rw a refl) ∙ h in cc
  | inl a ↦ elim (Bool-cases (is_empty q.error)) [
    | inr b ↦
        let g : err (lit "oauth error: " ++ q.error) ≡ ok code = sym (rw (a, b) refl) ∙ h in cc
    | inl b ↦ elim (Bool-cases (is_empty q.code)) [
      | inl c ↦ let g : err (lit "oauth code missing") ≡ ok code = sym (rw (a, b, c) refl) ∙ h in cc
      | inr c ↦
          let g : ok q.code ≡ ok code = sym (rw (a, b, c) refl) ∙ h in (a, b, c, ok_injective g)
    ]
  ]
]

-- The callback sends a code only for a request that bears the state, no error and that code.
callback_ok :
    (state : Str) (q : Query) (code : Str)
    → (callback state q).1 ≡ ok code
    → IsAccepted state q × (q.code ≡ code)
callback_ok state q code h =
    let (a, b, c, e) = callback_tests state q code h in
    (((str_eq_iff q.state state).0 a, empty q.error b, nonempty q.code c), e)

some_injective : {A : Type 0} {a b : A} → some a ≡ some b → a ≡ b
some_injective h = cc

module _ (calls : Calls) where
  open calls use {rand_read, base64_encode, listen_tcp, exchange}

  -- What a flow that ends well has done: it has taken a request that bears the first random token,
  -- and has exchanged its code with the verifier, the second one.
  pub record IsSigned (cfg : Config) (scopes : List Str) (q : Query) (t : Token) (c : Claims)
      : Type 0 where
    pub state : Str
    pub verifier : Str
    pub address : Str
    pub drawn : random_token calls 0 16 ≡ ok state
    pub paired : random_token calls 1 32 ≡ ok verifier
    pub accepted : IsAccepted state q
    pub exchanged : exchange (oauth_config calls cfg address scopes) q.code verifier ≡ ok t
    pub claimed : c ≡ claims_of calls t

  requested :
      (state : Str) (event : Event) (code : Str)
      → received state event ≡ ok code
      → (q : Query) × (event ≡ request q) × IsAccepted state q × (q.code ≡ code)
  requested state (cancelled e) code h = cc
  requested state (serve_failed e) code h = cc
  requested state (request q) code h = let (a, e) = callback_ok state q code h in (q, refl, a, e)

  -- A flow ends well only by a request to the callback that bears the state that the flow has drawn,
  -- no error and a code, which is exchanged together with the flow's own verifier; the claims are
  -- those of the token's identity token.
  pub run_oauth_flow_ok :
      (cfg : Config) (scopes : List Str) (event : Event) (t : Token) (c : Claims)
      → run_oauth_flow calls cfg scopes event ≡ ok (some t, c)
      → (q : Query) × (event ≡ request q) × IsSigned cfg scopes q t c
  unfolding run_oauth_flow pkce_pair
  run_oauth_flow_ok cfg scopes event t c h =
      let (state, d, h1) = first_step (random_token calls 0 16) h in
      let (pair, p, h2) = first_step (pkce_pair calls) h1 in
      let (verifier, v, h2') = first_step (random_token calls 1 32) p in
      let (address, l, h3) = first_step (listen_tcp cfg.oauth_redirect_host) h2 in
      let (o, b, h4) = first_step (open_browser calls _) h3 in
      let (code, r, h5) = first_step (received state event) h4 in
      let (token, x, h6) =
        first_step (exchange (oauth_config calls cfg address scopes) code pair.0) h5 in
      let (q, i, a, e) = requested state event code r in
      let k = ok_injective h6 in
      let u : token ≡ t = some_injective (ap (λ z. z.0) k) in
      let j : exchange (oauth_config calls cfg address scopes) q.code pair.0 ≡ ok t =
        ap (λ z. exchange (oauth_config calls cfg address scopes) z pair.0) e ∙ x ∙ ap ok u in
      (
        q,
        i,
        record {
          state = state;
          verifier = pair.0;
          address = address;
          drawn = d;
          paired = v ∙ ap (λ z. ok z.0) (ok_injective h2');
          accepted = a;
          exchanged = j;
          claimed = sym (ap (λ z. z.1) k) ∙ ap (claims_of calls) u;
        },
      )

  -- A flow whose calls succeed ends well on a request that bears its state, no error and a code.
  pub run_oauth_flow_accepts :
      (cfg : Config) (scopes : List Str) (q : Query) (t : Token) (state verifier address : Str)
      → random_token calls 0 16 ≡ ok state
      → random_token calls 1 32 ≡ ok verifier
      → listen_tcp cfg.oauth_redirect_host ≡ ok address
      → ((url : Str) → open_browser calls url ≡ ok tt)
      → IsAccepted state q
      → exchange (oauth_config calls cfg address scopes) q.code verifier ≡ ok t
      → run_oauth_flow calls cfg scopes (request q) ≡ ok (some t, claims_of calls t)
  unfolding run_oauth_flow pkce_pair callback
  run_oauth_flow_accepts cfg scopes q t state verifier address d v l b (a, e, c) x =
      let r : str_eq q.state state ≡ true = (str_eq_iff q.state state).1 a in
      let n : is_empty q.code ≡ false = text_full q.code c in
      let o : is_empty q.error ≡ true = ap is_empty e in
      let g : (callback state q).1 ≡ ok q.code = rw (r, o, n) refl in rw (d, v, l, b, g, x) refl

  -- A step of `SignIn` that fails and changes nothing.
  abbrev Fails :
      (sql : Engine) (ring : Keyring) (cfg : Config)
      → World sql ring cfg
      → World sql ring cfg × Option Str
      → Type 0
  Fails sql ring cfg w r = (r.0 ≡ w) × (r.1 ≢ none)

  failed :
      (sql : Engine) (ring : Keyring) (cfg : Config) (w : World sql ring cfg) (e : Str)
      → Fails sql ring cfg w (w, some e)
  failed sql ring cfg w e = (refl, λ h. cc)

  Fails-if :
      (sql : Engine) (ring : Keyring) (cfg : Config) (w : World sql ring cfg) (b : Bool)
      (r s : World sql ring cfg × Option Str)
      → Fails sql ring cfg w r
      → Fails sql ring cfg w s
      → Fails sql ring cfg w (if b then r else s)
  Fails-if sql ring cfg w true r s f g = f
  Fails-if sql ring cfg w false r s f g = g

  finish-Fails :
      (sql : Engine) (ring : Keyring) (cfg : Config) (scopes : List Str) (clock : ℕ → Time)
      (w : World sql ring cfg) (r : Result (Option Token × Claims))
      → ((t : Token) (c : Claims) → r ≢ ok (some t, c))
      → Fails sql ring cfg w (finish sql ring cfg r scopes clock w)
  unfolding finish
  finish-Fails sql ring cfg scopes clock w (err e) n = (refl, λ h. cc)
  finish-Fails sql ring cfg scopes clock w (ok (none, c)) n = (refl, λ h. cc)
  finish-Fails sql ring cfg scopes clock w (ok (some t, c)) n = elim (n t c refl) [ ]

  forged :
      (cfg : Config) (scopes : List Str) (q : Query) (state : Str)
      → random_token calls 0 16 ≡ ok state
      → q.state ≢ state
      → (t : Token) (c : Claims) → run_oauth_flow calls cfg scopes (request q) ≢ ok (some t, c)
  forged cfg scopes q state d n t c h =
      let (q', e, i) = run_oauth_flow_ok cfg scopes (request q) t c h in
      let k : q.state ≡ q'.state = cc in n (k ∙ i.accepted.0 ∙ ok_injective (sym i.drawn ∙ d))

  -- Signing in changes nothing and fails where the browser's request bears another state than the
  -- one that the flow has drawn.
  pub sign_in_forged :
      (sql : Engine) (ring : Keyring) (cfg : Config) (scopes : List Str) (q : Query)
      (clock : ℕ → Time) (w : World sql ring cfg) (state : Str)
      → random_token calls 0 16 ≡ ok state
      → q.state ≢ state
      → ((sign_in sql ring cfg scopes (λ ss. run_oauth_flow calls cfg ss (request q)) clock w).0
          ≡ w)
        × ((sign_in sql ring cfg scopes (λ ss. run_oauth_flow calls cfg ss (request q)) clock w).1
            ≢ none)
  unfolding sign_in finish
  sign_in_forged sql ring cfg scopes q clock w state d n =
      let f =
        finish-Fails sql ring cfg (asked scopes) clock w
          (run_oauth_flow calls cfg (asked scopes) (request q))
          (forged cfg (asked scopes) q state d n) in
      let missing = lit "oauth client secret not configured" in
      Fails-if sql ring cfg w (is_empty cfg.oauth_client_id) _ _
        (failed sql ring cfg w (lit "oauth client id not configured"))
        (Fails-if sql ring cfg w (is_empty cfg.oauth_client_secret) _ _
          (failed sql ring cfg w missing) f)
