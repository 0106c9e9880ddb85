-- ===== src/Auth/Oauth/Requests/Forever.antt =====
-- The handlers of internal/auth/oauth.go that block for good.
use googlysync.Prelude.{
  suc, ◌<◌, true, false, ◌≡◌, ◌≢◌, ◌⊎◌, inl, inr, refl, ◌∙◌, Option, none, some, List, [], ◌∷◌,
  ◌++◌, Str, Result, ok, err, arith, if◌then◌else◌,
}
use googlysync.Auth.Oauth.{callback}
use googlysync.Auth.Oauth.Requests.{
  while_waiting, once_taken, Channel, Answer, from_code, from_err, from_context, Flow, start,
  send_to, send, Happening, requested, code_received, err_received, cancelled, shuts, step, run,
}
use googlysync.Auth.Oauth.Requests.Waiting.{Waits, took_code, took_err, Waits-iff}

none-ne-some : {r : Answer} → none ≢ some r
none-ne-some h = cc

module _ (state : Str) where
  append_taken : (xs ys : List Str) → xs ≢ [] → xs ++ ys ≢ []
  append_taken [] ys h = elim (h refl) [ ]
  append_taken (x ∷ xs) ys h = λ e. cc

  blocked-send_to :
      (b : Option Str) (ch : Channel) (x : Str) → ch.blocked ≢ [] → (send_to b ch x).blocked ≢ []
  blocked-send_to none ch x h = h
  blocked-send_to (some y) ch x h = append_taken ch.blocked (x ∷ []) h

  Waits-send : (r : Result Str) (s : Flow) → Waits s → Waits (send r s)
  Waits-send (ok c) s (inl h) = inl (blocked-send_to s.code_ch.buffered s.code_ch c h)
  Waits-send (ok c) s (inr h) = inr h
  Waits-send (err e) s (inl h) = inl h
  Waits-send (err e) s (inr h) = inr (blocked-send_to s.err_ch.buffered s.err_ch e h)

  -- a flow that is stuck: it has received, and a handler blocks
  IsStuck : Flow → Type 0
  IsStuck s = ((r : Answer) × (s.taken ≡ some r)) × Waits s

  taken-send : (r : Result Str) (s : Flow) → (send r s).taken ≡ s.taken
  taken-send (ok c) s = refl
  taken-send (err e) s = refl

  kept :
      (t : Option Answer) (next s : Flow)
      → ((r : Answer) × (t ≡ some r))
      → IsStuck s
      → IsStuck (while_waiting t next s)
  kept none next s (r, e) i = elim (none-ne-some e) [ ]
  kept (some q) next s t i = i

  shut :
      (t : Option Answer) (next s : Flow) → IsStuck s → IsStuck next → IsStuck (once_taken t next s)
  shut none next s i j = i
  shut (some q) next s i j = j

  step-IsStuck : (h : Happening) (s : Flow) → IsStuck s → IsStuck (step state h s)
  unfolding step IsStuck
  step-IsStuck (requested q) s (t, w) =
      elim s.closed as (λ b. IsStuck (if b then s else send (callback state q).1 s)) [
        | true ↦ (t, w)
        | false ↦
            ((t.0, taken-send (callback state q).1 s ∙ t.1), Waits-send (callback state q).1 s w)
      ]
  step-IsStuck code_received s i = kept s.taken _ s i.0 i
  step-IsStuck err_received s i = kept s.taken _ s i.0 i
  step-IsStuck (cancelled e) s i = kept s.taken _ s i.0 i
  step-IsStuck shuts s i = shut s.taken _ s i i

  run-IsStuck : (hs : List Happening) (s : Flow) → IsStuck s → IsStuck (run state hs s)
  run-IsStuck [] s i = i
  run-IsStuck (h ∷ hs) s i = run-IsStuck hs (step state h s) (step-IsStuck h s i)

  -- Once the select of the flow has received and three codes or three errors have been sent, a handler
  -- blocks, and it does so after whatever else happens: further requests, receives, a cancelled
  -- context or `Shutdown`.
  pub Waits-forever :
      (hs more : List Happening) (r : Answer)
      → (run state hs start).taken ≡ some r
      → (2 < (run state hs start).code_ch.sent) ⊎ (2 < (run state hs start).err_ch.sent)
      → Waits (run state more (run state hs start))
  unfolding IsStuck
  Waits-forever hs more r t n =
      let s = run state hs start in
      (run-IsStuck more s ((r, t), (Waits-iff state hs).1 (many s.taken n))).1
    where
      many :
          (t : Option Answer)
          → (2 < (run state hs start).code_ch.sent) ⊎ (2 < (run state hs start).err_ch.sent)
          → (suc (took_code t) < (run state hs start).code_ch.sent)
            ⊎ (suc (took_err t) < (run state hs start).err_ch.sent)
      many none (inl n) = inl (omega arith)
      many none (inr n) = inr (omega arith)
      many (some (from_code c)) (inl n) = inl (omega arith)
      many (some (from_code c)) (inr n) = inr (omega arith)
      many (some (from_err c)) (inl n) = inl (omega arith)
      many (some (from_err c)) (inr n) = inr (omega arith)
      many (some (from_context c)) (inl n) = inl (omega arith)
      many (some (from_context c)) (inr n) = inr (omega arith)
