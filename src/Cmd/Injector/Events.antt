-- ===== src/Cmd/Injector/Events.antt =====
-- The events of a daemon that `InitializeDaemon` of cmd/googlysync/wire_gen.go has returned: those
-- of internal/fswatch/fswatch.go, forwarded by internal/daemon/daemon.go.
use googlysync.Prelude.{
  Bool, ℕ, pos, ◌≤◌, ◌≡◌, refl, ap, ◌∙◌, [], List, ◌++◌, length, Str, ok, arith,
}
use googlysync.Config.{Options}
use googlysync.Fswatch.Ops.{Masks}
use googlysync.Fswatch.Paths.{Filepath}
use googlysync.Daemon.Pipeline.{Action, act_all}
use googlysync.Daemon.Pipeline.Order.{contents, inside, flushed_by_all}
use googlysync.Daemon.Pipeline.Burst.{act_all-burst}
use googlysync.Config.Named.{JoinsFilled}
use googlysync.Cmd.Injector.{Machine, Wired, initialize_daemon, pipe_of}
use googlysync.Cmd.Injector.Parts.{initialize_daemon-IsWired}

module _ (m : Machine) (opts : Options) (filled : JoinsFilled m.system) (fp : Filepath)
    (masks : Masks) (accepts : Str → Bool) where
  -- Where `filepath.Join` does not lose names: in a daemon that `InitializeDaemon` has returned, if the
  -- watcher flushes no more events than 256, and no more than the configured size of the queue, then
  -- however the goroutines take their steps, what the engine has handled, followed by what is on its
  -- way, is all that was flushed, in the order of the flushes.
  pub wired_burst :
      (as' : List Action) (d : Wired m) (n : ℕ)
      → (initialize_daemon m opts).1 ≡ ok d
      → d.config.sync_queue_size ≡ pos n
      → length (flushed_by_all fp masks d.config accepts as' (pipe_of m d)) ≤ n
      → length (flushed_by_all fp masks d.config accepts as' (pipe_of m d)) ≤ 256
      → contents (act_all fp masks d.config accepts as' (pipe_of m d))
        ≡ flushed_by_all fp masks d.config accepts as' (pipe_of m d)
  wired_burst as' d n h q few fewer =
      let w = initialize_daemon-IsWired m opts filled d h in
      let none_inside : inside (pipe_of m d) ≡ [] = rw (w.no_events.0, w.no_events.1) refl in
      let same : pos d.queue.capacity ≡ pos n = w.queue ∙ q in
      let capacity : d.queue.capacity ≡ n = cc in
      act_all-burst fp masks d.config accepts as' (pipe_of m d) (
        omega (arith, few, fewer, capacity, ap length none_inside),
        omega (arith, few, fewer, capacity, ap length none_inside),
      )
      ∙ ap (λ es. es ++ flushed_by_all fp masks d.config accepts as' (pipe_of m d)) none_inside
