-- ===== src/Daemon/Served.antt =====
-- What the server of internal/daemon/daemon.go serves, and when `Run` returns.
use googlysync.Prelude.{
  Bool, inl, inr, ◌⊎◌, true, false, ◌≡◌, refl, sym, ap, subst, Bool-cases, is_empty, lit, ◌∙◌,
  Option, none, some, if◌then◌else◌,
}
use googlysync.Ipc.Server.{Outcome, Listening, listen, stop, stop_gracefully}
use googlysync.Daemon.{
  Daemon, System, waiting, returned, Serving, not_started, serving, answered, begin, on_cancelled,
  on_answer, started, start_server, serve_ends, server_stops, Step, cancel, server_starts,
  server_ends, server_sees_cancel, run_sees_cancel, run_sees_answer, Reach, begun, next,
}

module _ (d : Daemon) where
  -- the steps from one state to another
  pub data Since (t : System) : System → Type 0 where
    same : Since t t
    later : {u v : System} → Since t u → Step d u v → Since t v

  -- What the server's goroutine has done, with the listener and what it has sent.
  abbrev pub Served : Bool → Serving → Listening → Option Outcome → Type 0
  Served b not_started l a = (l.serving ≡ false) × (l.listener ≡ false) × (a ≡ none)
  Served b serving l a = (l.grpc_server ≡ true) × (b ≡ true) × (a ≡ none)
  Served b answered l a = l.serving ≡ false

  abbrev pub ServedIn : System → Type 0
  ServedIn s = Served d.server s.serving s.listening s.err_ch

  pub ServedIn-listen :
      (s : System) (made listened : Outcome)
      → d.server ≡ true
      → s.listening.serving ≡ false
      → s.err_ch ≡ none
      → ServedIn (started s (listen d.socket_path made listened s.listening))
  unfolding listen
  ServedIn-listen s made listened h q e = go (is_empty d.socket_path) made listened
    where
      go :
          (b : Bool) (made' listened' : Outcome)
          → ServedIn (
              started s (
                if b then (s.listening, some (lit "socket path not configured")) else elim made' [
                  | some x ↦ (s.listening, some x)
                  | none ↦ elim listened' [
                    | some x ↦ (s.listening, some x)
                    | none ↦ (record { listener = true; grpc_server = true; serving = true }, none)
                  ]
                ]))
      go true m l = q
      go false (some x) l = q
      go false none (some x) = q
      go false none none = (refl, h, e)

  pub ServedIn-start_server :
      (s : System) → s.serving ≡ not_started → ServedIn s → ServedIn (start_server d s)
  unfolding start_server
  ServedIn-start_server s w i =
      let (q, l, e) = subst (λ v. Served d.server v s.listening s.err_ch) w i in
      let go_on =
        started s (listen d.socket_path d.socket_dir_made d.socket_listened s.listening) in
      let no_server : System = record s { serving = answered; err_ch = some none } in
      elim (Bool-cases d.server) [
        | inl h ↦
            subst (λ b. ServedIn (if b then go_on else no_server)) (sym h)
              (ServedIn-listen s d.socket_dir_made d.socket_listened h q e)
        | inr h ↦ subst (λ b. ServedIn (if b then go_on else no_server)) (sym h) q
      ]

  pub stop_quiet : (l : Listening) → l.serving ≡ false → (stop l).serving ≡ false
  unfolding stop
  stop_quiet l q = elim (Bool-cases l.grpc_server) [ inl g ↦ rw g refl | inr g ↦ rw g q ]

  pub stopped : Bool → Listening → Listening
  stopped b l = if b then stop l else l

  pub Served-stopped :
      (b : Bool) (v : Serving) (l : Listening) (a : Option Outcome)
      → Served b v l a
      → Served b v (stopped b l) a
  unfolding stopped stop
  Served-stopped true not_started l a (q, c, e) = (stop_quiet l q, refl, e)
  Served-stopped true serving l a i = i
  Served-stopped true answered l a q = stop_quiet l q
  Served-stopped false not_started l a i = i
  Served-stopped false serving l a i = i
  Served-stopped false answered l a i = i

  -- Nothing is served, and the listener is closed unless the goroutine of the server has ended.
  abbrev pub Quiet : Serving → Listening → Type 0
  Quiet v l = (l.serving ≡ false) × ((l.listener ≡ false) ⊎ (v ≡ answered))

  pub Quiet-stopped :
      (b : Bool) (v : Serving) (l : Listening) (a : Option Outcome)
      → Served b v l a
      → Quiet v (stopped b l)
  unfolding stopped stop
  Quiet-stopped true not_started l a (q, c, e) = (stop_quiet l q, inl refl)
  Quiet-stopped true serving l a (g, b, e) = (rw g refl, inl refl)
  Quiet-stopped true answered l a q = (stop_quiet l q, inl refl)
  Quiet-stopped false not_started l a (q, c, e) = (q, inl c)
  Quiet-stopped false serving l a (g, b, e) = cc
  Quiet-stopped false answered l a q = (q, inr refl)

  -- An answer is there only from a goroutine that has ended.
  pub Served-answered :
      (b : Bool) (v : Serving) (l : Listening) (r : Outcome)
      → Served b v l (some r)
      → Served b v l none × (v ≡ answered) × (l.serving ≡ false)
  Served-answered b not_started l r (q, c, e) = cc
  Served-answered b serving l r (g, h, e) = cc
  Served-answered b answered l r q = (q, refl, q)

  pub answered_here :
      (s : System) (r : Outcome)
      → ServedIn s
      → s.err_ch ≡ some r
      → Served d.server s.serving s.listening none
        × (s.serving ≡ answered)
        × (s.listening.serving ≡ false)
  answered_here s r i a =
      Served-answered d.server s.serving s.listening r
        (subst (Served d.server s.serving s.listening) a i)

  pub ServedIn-on_answer :
      (r : Outcome) (s : System)
      → Served d.server s.serving s.listening none
      → ServedIn (on_answer d r s)
  unfolding on_answer
  ServedIn-on_answer none s i = i
  ServedIn-on_answer (some e) s i = i

  pub ServedIn-Step : {s t : System} → ServedIn s → Step d s t → ServedIn t
  unfolding on_cancelled stopped serve_ends server_stops stop_gracefully
  ServedIn-Step {s = s} i (cancel e) = subst ServedIn (sym e) i
  ServedIn-Step {s = s} i (server_starts w e) = subst ServedIn (sym e) (ServedIn-start_server s w i)
  ServedIn-Step {s = s} i (server_ends r w e) = subst ServedIn (sym e) refl
  ServedIn-Step {s = s} i (server_sees_cancel w c e) = subst ServedIn (sym e) refl
  ServedIn-Step {s = s} i (run_sees_cancel w c e) =
      subst ServedIn (sym e) (Served-stopped d.server s.serving s.listening s.err_ch i)
  ServedIn-Step {s = s} i (run_sees_answer r w a e) =
      subst ServedIn (sym e) (ServedIn-on_answer r s (answered_here s r i a).0)

  pub ServedIn-Reach : {c : Bool} {s : System} → Reach d c s → ServedIn s
  unfolding begin
  ServedIn-Reach begun = (refl, refl, refl)
  ServedIn-Reach (next r p) = ServedIn-Step (ServedIn-Reach r) p

  pub listening-on_answer :
      (r : Outcome) (s : System)
      → ((on_answer d r s).listening ≡ s.listening) × ((on_answer d r s).serving ≡ s.serving)
  unfolding on_answer
  listening-on_answer none s = (refl, refl)
  listening-on_answer (some e) s = (refl, refl)

  pub loop-start_server : (s : System) → (start_server d s).loop ≡ s.loop
  unfolding start_server
  loop-start_server s =
      elim d.server
        as (λ b.
          (if b
            then started s (listen d.socket_path d.socket_dir_made d.socket_listened s.listening)
            else record s { serving = answered; err_ch = some none }).loop
          ≡ s.loop) [
            | true ↦ go (listen d.socket_path d.socket_dir_made d.socket_listened s.listening)
            | false ↦ refl
          ]
    where
      go : (p : Listening × Outcome) → (started s p).loop ≡ s.loop
      go (l, some e) = refl
      go (l, none) = refl

  pub still_waiting :
      {A : Type 0} (s t : System) (r : Outcome)
      → s.loop ≡ waiting
      → t.loop ≡ s.loop
      → t.loop ≡ returned r
      → A
  still_waiting s t r w e h = let f : ⊥ = cc in elim f [ ]

  -- the step with which `Run` returns
  pub Quiet-Step :
      {s t : System} (r : Outcome)
      → ServedIn s
      → s.loop ≡ waiting
      → Step d s t
      → t.loop ≡ returned r
      → Quiet t.serving t.listening
  unfolding on_cancelled stopped serve_ends server_stops
  Quiet-Step {s = s} {t = t} r i w (cancel e) h = still_waiting s t r w (ap (λ x. x.loop) e) h
  Quiet-Step {s = s} {t = t} r i w (server_starts v e) h =
      still_waiting s t r w (ap (λ x. x.loop) e ∙ loop-start_server s) h
  Quiet-Step {s = s} {t = t} r i w (server_ends q v e) h =
      still_waiting s t r w (ap (λ x. x.loop) e) h
  Quiet-Step {s = s} {t = t} r i w (server_sees_cancel v c e) h =
      still_waiting s t r w (ap (λ x. x.loop) e) h
  Quiet-Step {s = s} r i w (run_sees_cancel v c e) h =
      subst (λ x. Quiet x.serving x.listening) (sym e)
        (Quiet-stopped d.server s.serving s.listening s.err_ch i)
  Quiet-Step {s = s} r i w (run_sees_answer q v a e) h =
      let (j, ended, quiet) = answered_here s q i a in
      let (l, m) = listening-on_answer q s in
      subst (λ x. Quiet x.serving x.listening) (sym e)
        (ap (λ x. x.serving) l ∙ quiet, inr (m ∙ ended))
