-- ===== src/Daemon/Shutdown.antt =====
-- What holds when `Run` of internal/daemon/daemon.go returns, in whatever order the goroutines run.
use googlysync.Prelude.{
  Bool, inl, inr, ◌⊎◌, true, false, ◌≡◌, refl, sym, subst, Option, none, some, if◌then◌else◌,
}
use googlysync.Ipc.Server.{Outcome, Listening, listen}
use googlysync.Daemon.{
  Daemon, System, Main, waiting, returned, Serving, not_started, serving, answered, begin,
  on_cancelled, on_answer, started, start_server, serve_ends, server_stops, Step, cancel,
  server_starts, server_ends, server_sees_cancel, run_sees_cancel, run_sees_answer, Reach, begun,
  next,
}

module _ (d : Daemon) where
  -- The watcher and the storage, where the daemon has them, are closed, and `Run` returns what closing the storage did.
  abbrev pub Closed : System → Outcome → Type 0
  Closed s r =
      (s.watcher_closed ≡ d.watcher)
      × (s.storage_is_closed ≡ d.storage)
      × (r ≡ (if d.storage then d.storage_closed else none))

  -- `Run` returns an error of the server, and neither is closed.
  abbrev pub Abandoned : System → Outcome → Type 0
  Abandoned s none = ⊥
  Abandoned s (some e) = (s.watcher_closed ≡ false) × (s.storage_is_closed ≡ false)

  abbrev Finished : System → Main → Type 0
  Finished s waiting = (s.watcher_closed ≡ false) × (s.storage_is_closed ≡ false)
  Finished s (returned r) = (s.sync_cancelled ≡ true) × (Closed s r ⊎ Abandoned s r)

  -- What the server's goroutine has sent waits for `Run`.
  abbrev Sent : Option Outcome → Serving → Main → Type 0
  Sent a not_started m = Unit {0}
  Sent a serving m = Unit {0}
  Sent a answered waiting = (r : Outcome) × (a ≡ some r)
  Sent a answered (returned r) = Unit {0}

  record Inv (s : System) : Type 0 where
    finished : Finished s s.loop
    sent : Sent s.err_ch s.serving s.loop

  Sent-returned : (a : Option Outcome) (v : Serving) (r : Outcome) → Sent a v (returned r)
  Sent-returned a not_started r = tt
  Sent-returned a serving r = tt
  Sent-returned a answered r = tt

  Sent-answered : (r : Outcome) (m : Main) → Sent (some r) answered m
  Sent-answered r waiting = (r, refl)
  Sent-answered r (returned e) = tt

  closed_once : (b c : Bool) → c ≡ false → (if b then true else c) ≡ b
  closed_once true c e = refl
  closed_once false c e = e

  open_before : (s : System) → s.loop ≡ waiting → Inv s → Finished s waiting
  open_before s w i = subst (Finished s) w i.finished

  on_cancelled-Inv : (s : System) → s.loop ≡ waiting → Inv s → Inv (on_cancelled d s)
  unfolding on_cancelled
  on_cancelled-Inv s w i =
      let (a, b) = open_before s w i in
      record {
        finished = (
          refl,
          inl (
            closed_once d.watcher s.watcher_closed a,
            closed_once d.storage s.storage_is_closed b,
            refl,
          ),
        );
        sent = Sent-returned s.err_ch s.serving (if d.storage then d.storage_closed else none);
      }

  on_answer-Inv : (r : Outcome) (s : System) → s.loop ≡ waiting → Inv s → Inv (on_answer d r s)
  unfolding on_answer
  on_answer-Inv none s w i =
      let (a, b) = open_before s w i in
      record {
        finished = (
          refl,
          inl (
            closed_once d.watcher s.watcher_closed a,
            closed_once d.storage s.storage_is_closed b,
            refl,
          ),
        );
        sent = Sent-returned none s.serving (if d.storage then d.storage_closed else none);
      }
  on_answer-Inv (some e) s w i =
      let p = open_before s w i in
      record { finished = (refl, inr p); sent = Sent-returned none s.serving (some e) }

  -- a step of the server's goroutine changes none of what `Finished` reads
  Finished-server :
      (s : System) (v : Serving) (l : Listening) (a : Option Outcome) (m : Main)
      → Finished s m
      → Finished (record s { serving = v; listening = l; err_ch = a }) m
  Finished-server s v l a waiting f = f
  Finished-server s v l a (returned none) f = f
  Finished-server s v l a (returned (some e)) f = f

  answers-Inv :
      (s : System) (l : Listening) (r : Outcome)
      → Inv s
      → Inv (record s { serving = answered; listening = l; err_ch = some r })
  answers-Inv s l r i = record {
    finished = Finished-server s answered l (some r) s.loop i.finished;
    sent = Sent-answered r s.loop;
  }

  started-Inv : (s : System) (p : Listening × Outcome) → Inv s → Inv (started s p)
  started-Inv s (l, some e) i = answers-Inv s l (some e) i
  started-Inv s (l, none) i = record {
    finished = Finished-server s serving l s.err_ch s.loop i.finished;
    sent = tt;
  }

  start_server-Inv : (s : System) → Inv s → Inv (start_server d s)
  unfolding start_server
  start_server-Inv s i =
      elim d.server
        as (λ b. Inv (
          if b
          then started s (listen d.socket_path d.socket_dir_made d.socket_listened s.listening)
          else record s { serving = answered; err_ch = some none })) [
            | true ↦ started-Inv s _ i
            | false ↦ answers-Inv s s.listening none i
          ]

  Finished-cancel :
      (s : System) (m : Main)
      → Finished s m
      → Finished (record s { cancelled = true; sync_cancelled = true }) m
  Finished-cancel s waiting f = f
  Finished-cancel s (returned none) f = (refl, f.1)
  Finished-cancel s (returned (some e)) f = (refl, f.1)

  Step-Inv : {s t : System} → Inv s → Step d s t → Inv t
  unfolding serve_ends server_stops
  Step-Inv {s = s} i (cancel e) =
      subst Inv (sym e) (record { finished = Finished-cancel s s.loop i.finished; sent = i.sent })
  Step-Inv {s = s} i (server_starts w e) = subst Inv (sym e) (start_server-Inv s i)
  Step-Inv {s = s} i (server_ends r w e) =
      subst Inv (sym e) (answers-Inv s (serve_ends r s).listening r i)
  Step-Inv {s = s} i (server_sees_cancel w c e) =
      subst Inv (sym e) (answers-Inv s (server_stops s).listening none i)
  Step-Inv {s = s} i (run_sees_cancel w c e) = subst Inv (sym e) (on_cancelled-Inv s w i)
  Step-Inv {s = s} i (run_sees_answer r w a e) = subst Inv (sym e) (on_answer-Inv r s w i)

  begin-Inv : (c : Bool) → Inv (begin d c)
  unfolding begin
  begin-Inv c = record { finished = (refl, refl); sent = tt }

  Reach-Inv : {c : Bool} {s : System} → Reach d c s → Inv s
  Reach-Inv {c = c} begun = begin-Inv c
  Reach-Inv (next r p) = Step-Inv (Reach-Inv r) p

  -- When `Run` has returned, the context of the sync goroutine is cancelled, and either the
  -- watcher and the storage are closed, where the daemon has them, and the result is what closing the
  -- storage returned, or the result is an error of the server and neither is closed.
  pub returned_state :
      (c : Bool) (s : System) (r : Outcome)
      → Reach d c s
      → s.loop ≡ returned r
      → (s.sync_cancelled ≡ true) × (Closed s r ⊎ Abandoned s r)
  returned_state c s r p e = subst (Finished s) e (Reach-Inv p).finished

  on_answer_returns :
      (r : Outcome) (s : System) → (q : Outcome) × ((on_answer d r s).loop ≡ returned q)
  unfolding on_answer
  on_answer_returns none s = (_, refl)
  on_answer_returns (some e) s = (_, refl)

  -- While `Run` waits, as soon as its context is cancelled or the goroutine of the server has ended,
  -- there is a step after which `Run` has returned.
  pub run_can_return :
      (c : Bool) (s : System)
      → Reach d c s
      → s.loop ≡ waiting
      → (s.cancelled ≡ true) ⊎ (s.serving ≡ answered)
      → (t : System) × (r : Outcome) × Step d s t × (t.loop ≡ returned r)
  unfolding on_cancelled
  run_can_return c s p w (inl e) = (on_cancelled d s, _, run_sees_cancel w e refl, refl)
  run_can_return c s p w (inr e) =
      let i : Sent s.err_ch answered waiting =
        subst (λ m. Sent s.err_ch answered m) w
          (subst (λ v. Sent s.err_ch v s.loop) e (Reach-Inv p).sent) in
      let (q, f) = on_answer_returns i.0 s in
      (on_answer d i.0 s, q, run_sees_answer i.0 w i.1 refl, f)
