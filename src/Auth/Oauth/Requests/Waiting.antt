-- ===== src/Auth/Oauth/Requests/Waiting.antt =====
-- Whether the flow of internal/auth/oauth.go returns when its callback is requested several times.
use googlysync.Prelude.{
  ℕ, suc, ◌+◌, ◌<◌, Bool, true, false, ◌≡◌, ◌≢◌, ◌⊎◌, ◌↔◌, inl, inr, refl, ap, subst, Option, none,
  some, List, [], ◌∷◌, Str, Result, ok, err, length, length-append, arith, if◌then◌else◌,
}
use googlysync.Auth.Oauth.{callback}
use googlysync.Auth.Oauth.Requests.{
  while_waiting, once_taken, Channel, Answer, from_code, from_err, from_context, Flow, start,
  send_to, next_buffered, send, Happening, requested, code_received, err_received, cancelled, shuts,
  receive_code, receive_err, step, run,
}

-- Some handler blocks in its send, so that `Shutdown` waits.
abbrev pub Waits : Flow → Type 0
Waits s = (s.code_ch.blocked ≢ []) ⊎ (s.err_ch.blocked ≢ [])

abbrev pub took_code : Option Answer → ℕ
took_code (some (from_code c)) = 1
took_code (some (from_err e)) = 0
took_code (some (from_context e)) = 0
took_code none = 0

abbrev pub took_err : Option Answer → ℕ
took_err (some (from_code c)) = 0
took_err (some (from_err e)) = 1
took_err (some (from_context e)) = 0
took_err none = 0

abbrev occupied : Option Str → ℕ
occupied none = 0
occupied (some x) = 1

abbrev Full : Option Str → List Str → Type 0
Full none bs = bs ≡ []
Full (some x) bs = Unit {0}

-- What has been sent was received, is buffered, or is what senders block with, which they do only
-- while the buffer is full.
record IsCounted (received : ℕ) (ch : Channel) : Type 0 where
  total : received + (occupied ch.buffered + length ch.blocked) ≡ ch.sent
  full : Full ch.buffered ch.blocked

send_to-IsCounted :
    (r : ℕ) (b : Option Str) (ch : Channel) (x : Str)
    → ch.buffered ≡ b
    → IsCounted r ch
    → IsCounted r (send_to b ch x)
send_to-IsCounted r none ch x h c =
    let t : r + (0 + length ch.blocked) ≡ ch.sent =
      subst (λ b. r + (occupied b + length ch.blocked) ≡ ch.sent) h c.total in
    record { total = omega arith; full = tt }
send_to-IsCounted r (some y) ch x h c =
    let t : r + (1 + length ch.blocked) ≡ ch.sent =
      subst (λ b. r + (occupied b + length ch.blocked) ≡ ch.sent) h c.total in
    record { total = omega (arith, length-append ch.blocked (x ∷ [])); full = tt }

next_buffered-IsCounted :
    (r : ℕ) (bs : List Str) (ch : Channel) (y : Str)
    → ch.blocked ≡ bs
    → ch.buffered ≡ some y
    → IsCounted r ch
    → IsCounted (suc r) (next_buffered bs ch)
next_buffered-IsCounted r [] ch y h b c =
    let t : r + (1 + 0) ≡ ch.sent =
      subst (λ z. r + (occupied z + 0) ≡ ch.sent) b
        (subst (λ z. r + (occupied ch.buffered + length z) ≡ ch.sent) h c.total) in
    record { total = omega (arith, t, ap length h); full = h }
next_buffered-IsCounted r (x ∷ xs) ch y h b c =
    let t : r + (1 + suc (length xs)) ≡ ch.sent =
      subst (λ z. r + (occupied z + suc (length xs)) ≡ ch.sent) b
        (subst (λ z. r + (occupied ch.buffered + length z) ≡ ch.sent) h c.total) in
    record { total = omega arith; full = tt }

record Inv (s : Flow) : Type 0 where
  codes : IsCounted (took_code s.taken) s.code_ch
  errs : IsCounted (took_err s.taken) s.err_ch

send-Inv : (r : Result Str) (s : Flow) → Inv s → Inv (send r s)
send-Inv (ok c) s i = record {
  codes = send_to-IsCounted _ s.code_ch.buffered s.code_ch c refl i.codes;
  errs = i.errs;
}
send-Inv (err e) s i = record {
  codes = i.codes;
  errs = send_to-IsCounted _ s.err_ch.buffered s.err_ch e refl i.errs;
}

receive_code-Inv :
    (b : Option Str) (s : Flow)
    → s.code_ch.buffered ≡ b
    → s.taken ≡ none
    → Inv s
    → Inv (receive_code b s)
receive_code-Inv none s h t i = i
receive_code-Inv (some c) s h t i =
    let k = ap took_code t in
    let l = ap took_err t in
    record {
      codes =
          next_buffered-IsCounted 0 s.code_ch.blocked s.code_ch c refl h
            (subst (λ n. IsCounted n s.code_ch) k i.codes);
      errs = subst (λ n. IsCounted n s.err_ch) l i.errs;
    }

receive_err-Inv :
    (b : Option Str) (s : Flow)
    → s.err_ch.buffered ≡ b
    → s.taken ≡ none
    → Inv s
    → Inv (receive_err b s)
receive_err-Inv none s h t i = i
receive_err-Inv (some c) s h t i =
    let k = ap took_code t in
    let l = ap took_err t in
    record {
      codes = subst (λ n. IsCounted n s.code_ch) k i.codes;
      errs =
          next_buffered-IsCounted 0 s.err_ch.blocked s.err_ch c refl h
            (subst (λ n. IsCounted n s.err_ch) l i.errs);
    }

while_waiting-Inv :
    (t : Option Answer) (next s : Flow)
    → s.taken ≡ t
    → (s.taken ≡ none → Inv next)
    → Inv s
    → Inv (while_waiting t next s)
while_waiting-Inv none next s e f i = f e
while_waiting-Inv (some r) next s e f i = i

once_taken-Inv : (t : Option Answer) (next s : Flow) → Inv next → Inv s → Inv (once_taken t next s)
once_taken-Inv none next s j i = i
once_taken-Inv (some r) next s j i = j

if-Inv : (b : Bool) (s t : Flow) → Inv s → Inv t → Inv (if b then s else t)
if-Inv true s t i j = i
if-Inv false s t i j = j

cancel-Inv :
    (e : Str) (s : Flow) → s.taken ≡ none → Inv s → Inv (record s { taken = some (from_context e) })
cancel-Inv e s t i = record {
  codes = subst (λ n. IsCounted n s.code_ch) (ap took_code t) i.codes;
  errs = subst (λ n. IsCounted n s.err_ch) (ap took_err t) i.errs;
}

step-Inv : (state : Str) (h : Happening) (s : Flow) → Inv s → Inv (step state h s)
unfolding step
step-Inv state (requested q) s i = if-Inv s.closed s _ i (send-Inv (callback state q).1 s i)
step-Inv state code_received s i =
    while_waiting-Inv s.taken _ s refl (λ t. receive_code-Inv s.code_ch.buffered s refl t i) i
step-Inv state err_received s i =
    while_waiting-Inv s.taken _ s refl (λ t. receive_err-Inv s.err_ch.buffered s refl t i) i
step-Inv state (cancelled e) s i = while_waiting-Inv s.taken _ s refl (λ t. cancel-Inv e s t i) i
step-Inv state shuts s i = once_taken-Inv s.taken _ s (record { codes = i.codes; errs = i.errs }) i

run-Inv : (state : Str) (hs : List Happening) (s : Flow) → Inv s → Inv (run state hs s)
run-Inv state [] s i = i
run-Inv state (h ∷ hs) s i = run-Inv state hs (step state h s) (step-Inv state h s i)

start-Inv : Inv start
start-Inv = record {
  codes = record { total = refl; full = refl };
  errs = record { total = refl; full = refl };
}

-- A sender blocks exactly where more have sent than were received and are buffered.
blocked_iff :
    (r : ℕ) (b : Option Str) (bs : List Str) (n : ℕ)
    → r + (occupied b + length bs) ≡ n
    → Full b bs
    → (bs ≢ []) ↔ (suc r < n)
blocked_iff r none bs n t f = ((λ h. elim (h f) [ ]), λ h. absurd (omega (arith, ap length f)))
blocked_iff r (some x) [] n t f = ((λ h. elim (h refl) [ ]), λ h. absurd (omega arith))
blocked_iff r (some x) (c ∷ bs) n t f = ((λ h. omega arith), λ h. λ e. cc)

⊎-iff : {A B C D : Type 0} → A ↔ B → C ↔ D → (A ⊎ C) ↔ (B ⊎ D)
⊎-iff {A} {B} {C} {D} p q = (there, back)
  where
    there : A ⊎ C → B ⊎ D
    there (inl a) = inl (p.0 a)
    there (inr c) = inr (q.0 c)

    back : B ⊎ D → A ⊎ C
    back (inl b) = inl (p.1 b)
    back (inr d) = inr (q.1 d)

module _ (state : Str) where
  -- Whatever requests come in and whatever the select receives, a handler blocks exactly if more than
  -- one code has been sent beside the one that the select has received, if any, or more than one
  -- error has.
  pub Waits-iff :
      (hs : List Happening)
      → let s = run state hs start in
        Waits s
        ↔ (suc (took_code s.taken) < s.code_ch.sent) ⊎ (suc (took_err s.taken) < s.err_ch.sent)
  Waits-iff hs =
      let i = run-Inv state hs start start-Inv in
      let s = run state hs start in
      ⊎-iff
        (blocked_iff (took_code s.taken) s.code_ch.buffered s.code_ch.blocked s.code_ch.sent
          i.codes.total i.codes.full)
        (blocked_iff (took_err s.taken) s.err_ch.buffered s.err_ch.blocked s.err_ch.sent
          i.errs.total i.errs.full)
