-- ===== src/Daemon/Stopping.antt =====
-- The server when `Run` of internal/daemon/daemon.go returns, and from then on.
use googlysync.Prelude.{Bool, inl, inr, ◌⊎◌, true, false, ◌≡◌, sym, ap, ◌∙◌}
use googlysync.Ipc.Server.{Outcome, stop_gracefully}
use googlysync.Daemon.{
  Daemon, System, waiting, returned, not_started, answered, on_cancelled, on_answer, serve_ends,
  server_stops, Step, cancel, server_starts, server_ends, server_sees_cancel, run_sees_cancel,
  run_sees_answer, Reach, next,
}
use googlysync.Daemon.Shutdown.{Closed, Abandoned, returned_state}
use googlysync.Daemon.Served.{
  Since, same, later, Quiet, ServedIn-Reach, listening-on_answer, loop-start_server, Quiet-Step,
}

module _ (d : Daemon) where
  serving-on_answer : (r : Outcome) (s : System) → (on_answer d r s).serving ≡ s.serving
  serving-on_answer r s = (listening-on_answer d r s).1

  -- The goroutine of the server begins once.
  Step-not_started : {s t : System} → Step d s t → t.serving ≡ not_started → s.serving ≡ not_started
  unfolding on_cancelled serve_ends server_stops
  Step-not_started (cancel e) n = sym (ap (λ x. x.serving) e) ∙ n
  Step-not_started (server_starts w e) n = w
  Step-not_started (server_ends r w e) n =
      let f : answered ≡ not_started = sym (ap (λ x. x.serving) e) ∙ n in cc
  Step-not_started (server_sees_cancel w c e) n =
      let f : answered ≡ not_started = sym (ap (λ x. x.serving) e) ∙ n in cc
  Step-not_started (run_sees_cancel w c e) n = sym (ap (λ x. x.serving) e) ∙ n
  Step-not_started {s = s} (run_sees_answer r w a e) n =
      sym (ap (λ x. x.serving) e ∙ serving-on_answer r s) ∙ n

  Since-not_started :
      {t s : System} → Since d t s → s.serving ≡ not_started → t.serving ≡ not_started
  Since-not_started same n = n
  Since-not_started (later p q) n = Since-not_started p (Step-not_started q n)

  Step-returned :
      {s t : System} (r : Outcome) → Step d s t → s.loop ≡ returned r → t.loop ≡ returned r
  unfolding serve_ends server_stops
  Step-returned r (cancel e) l = ap (λ x. x.loop) e ∙ l
  Step-returned {s = s} r (server_starts w e) l = ap (λ x. x.loop) e ∙ loop-start_server d s ∙ l
  Step-returned r (server_ends a w e) l = ap (λ x. x.loop) e ∙ l
  Step-returned r (server_sees_cancel w c e) l = ap (λ x. x.loop) e ∙ l
  Step-returned r (run_sees_cancel w c e) l = cc
  Step-returned r (run_sees_answer a w b e) l = cc

  -- After `Run` has returned, what is not served is served again only from a goroutine that begins.
  Step-silent :
      {s t : System} (r : Outcome)
      → Step d s t
      → s.loop ≡ returned r
      → s.listening.serving ≡ false
      → (t.listening.serving ≡ false) ⊎ (s.serving ≡ not_started)
  unfolding serve_ends server_stops stop_gracefully
  Step-silent r (cancel e) l q = inl (ap (λ x. x.listening.serving) e ∙ q)
  Step-silent r (server_starts w e) l q = inr w
  Step-silent r (server_ends a w e) l q = inl (ap (λ x. x.listening.serving) e)
  Step-silent r (server_sees_cancel w c e) l q = inl (ap (λ x. x.listening.serving) e)
  Step-silent r (run_sees_cancel w c e) l q = cc
  Step-silent r (run_sees_answer a w b e) l q = cc

  Since-returned :
      {t u : System} (r : Outcome) → Since d t u → t.loop ≡ returned r → u.loop ≡ returned r
  Since-returned r same l = l
  Since-returned r (later p q) l = Step-returned r q (Since-returned r p l)

  Since-silent :
      {t u : System} (r : Outcome)
      → Since d t u
      → t.loop ≡ returned r
      → t.listening.serving ≡ false
      → (u.listening.serving ≡ false) ⊎ (t.serving ≡ not_started)
  Since-silent r same l q = inl q
  Since-silent {t = t} r (later {u = u} {v = v} p q) l k = elim (Since-silent r p l k) [
    | inr n ↦ inr n
    | inl silent ↦ from_step (Step-silent r q (Since-returned r p l) silent)
  ]
    where
      from_step :
          (v.listening.serving ≡ false) ⊎ (u.serving ≡ not_started)
          → (v.listening.serving ≡ false) ⊎ (t.serving ≡ not_started)
      from_step (inl silent) = inl silent
      from_step (inr n) = inr (Since-not_started p n)

  Since-Reach : {c : Bool} {t u : System} → Reach d c t → Since d t u → Reach d c u
  Since-Reach r same = r
  Since-Reach r (later p q) = next (Since-Reach r p) q

  -- With the step by which `Run` returns, the server serves nothing, and its listener is closed unless
  -- its goroutine has ended by itself. From then on, whatever steps follow: `Run` stays returned with
  -- its result, the server serves nothing, unless its goroutine had not even begun when `Run`
  -- returned, and the context of the sync goroutine is cancelled; and either the watcher and the
  -- storage are closed, where the daemon has them, and the result is what closing the storage
  -- returned, or the result is an error of the server and neither is closed.
  pub run_returned :
      (c : Bool) (s t u : System) (r : Outcome)
      → Reach d c s
      → s.loop ≡ waiting
      → Step d s t
      → t.loop ≡ returned r
      → Since d t u
      → Quiet d t.serving t.listening
        × (u.loop ≡ returned r)
        × ((u.listening.serving ≡ false) ⊎ (t.serving ≡ not_started))
        × (u.sync_cancelled ≡ true)
        × (Closed d u r ⊎ Abandoned d u r)
  run_returned c s t u r p w q l since =
      let quiet = Quiet-Step d r (ServedIn-Reach d p) w q l in
      let still = Since-returned r since l in
      let (cancelled, closed) = returned_state d c u r (Since-Reach (next p q) since) still in
      (quiet, still, Since-silent r since l quiet.0, cancelled, closed)
