-- ===== src/Daemon/Examples.antt =====
-- Runs of the daemon: one that is cancelled while the server serves, and one whose server fails.
use googlysync.Prelude.{true, false, inr, ◌⊎◌, ◌≡◌, refl, none, some, lit}
use googlysync.Ipc.Server.{listen}
use googlysync.Daemon.{
  Daemon, System, begin, close, on_cancelled, start_server, serve_ends, server_ends, returned,
  not_started, Step, cancel, server_starts, run_sees_cancel, Reach, begun, next,
}
use googlysync.Daemon.Shutdown.{Closed, Abandoned, run_can_return}
use googlysync.Daemon.Served.{Quiet, same}
use googlysync.Daemon.Stopping.{run_returned}

abbrev d : Daemon
d = record {
  sync = true;
  watcher = true;
  queue = true;
  server = true;
  storage = true;
  socket_path = lit "/run/s";
  socket_dir_made = none;
  socket_listened = none;
  storage_closed = some (lit "busy");
}

abbrev stopped : System
stopped =
    on_cancelled d
      (record (start_server d (begin d false)) { cancelled = true; sync_cancelled = true })

abbrev failed : System
failed = serve_ends (some (lit "accept")) (start_server d (begin d false))

failed-Reach : Reach d false failed
unfolding begin start_server listen serve_ends
failed-Reach =
    next (next begun (server_starts refl refl)) (server_ends (some (lit "accept")) refl refl)

abbrev serving_state : System
serving_state = record (start_server d (begin d false)) { cancelled = true; sync_cancelled = true }

serving_state-Reach : Reach d false serving_state
unfolding begin start_server listen
serving_state-Reach = next (next begun (server_starts refl refl)) (cancel refl)

run_returned_example :
    Quiet d stopped.serving stopped.listening
    × (stopped.loop ≡ returned (some (lit "busy")))
    × ((stopped.listening.serving ≡ false) ⊎ (stopped.serving ≡ not_started))
    × (stopped.sync_cancelled ≡ true)
    × (Closed d stopped (some (lit "busy")) ⊎ Abandoned d stopped (some (lit "busy")))
unfolding begin start_server listen on_cancelled close
run_returned_example =
    run_returned d false serving_state stopped stopped (some (lit "busy")) serving_state-Reach refl
      (run_sees_cancel refl refl refl) refl same

run_can_return_example : (t : System) × (r : _) × Step d failed t × (t.loop ≡ returned r)
unfolding begin start_server listen serve_ends
run_can_return_example = run_can_return d false failed failed-Reach refl (inr refl)
