-- ===== src/Auth/Oauth/Requests/Examples.antt =====
-- A page that sends three requests with a wrong state to the callback.
use googlysync.Prelude.{◌<◌, ◌≡◌, ◌⊎◌, ◌↔◌, inr, refl, some, suc, List, [], ◌∷◌, lit, str_eq, arith}
use googlysync.Auth.Oauth.{Query, callback}
use googlysync.Auth.Oauth.Requests.{
  start, Happening, requested, code_received, err_received, shuts, from_code, from_err, step, run,
}
use googlysync.Auth.Oauth.Requests.Waiting.{Waits, took_code, took_err, Waits-iff}
use googlysync.Auth.Oauth.Requests.Forever.{Waits-forever}

abbrev forged : Query
forged = record { state = lit "guess"; error = []; code = lit "c" }

abbrev genuine : Query
genuine = record forged { state = lit "s" }

abbrev flood : List Happening
flood = requested forged ∷ requested forged ∷ requested forged ∷ err_received ∷ []

-- The browser comes once, and is answered.
once_test :
    (run (lit "s") (requested genuine ∷ code_received ∷ shuts ∷ []) start).taken
    ≡ some (from_code (lit "c"))
unfolding step callback str_eq
once_test = refl

Waits-iff_example :
    let s = run (lit "s") flood start in
    Waits s ↔ (suc (took_code s.taken) < s.code_ch.sent) ⊎ (suc (took_err s.taken) < s.err_ch.sent)
Waits-iff_example = Waits-iff (lit "s") flood

Waits-forever_example :
    Waits (run (lit "s") (shuts ∷ requested genuine ∷ []) (run (lit "s") flood start))
unfolding step callback str_eq
Waits-forever_example =
    Waits-forever (lit "s") flood (shuts ∷ requested genuine ∷ [])
      (from_err (lit "oauth state mismatch")) refl (inr (omega arith))
