-- ===== src/Daemon.antt =====
-- internal/daemon/daemon.go: `Run`, with the goroutines that it starts, and `Close`. The goroutine of
-- `Run`, that of the server and the one that cancels the context take their steps in any order.
pub mod Shutdown
pub mod Served
pub mod Stopping
pub mod Pipeline
mod Examples
use googlysync.Prelude.{Bool, true, false, ◌&&◌, ◌≡◌, Option, none, some, if◌then◌else◌, Str}
use googlysync.Ipc.Server.{Outcome, Listening, not_listening, listen, stop_gracefully, stop}

-- which of the parts a daemon has, the server's socket, and what the calls that it makes return
pub record Daemon : Type 0 where
  pub sync : Bool
  pub watcher : Bool
  pub queue : Bool
  pub server : Bool
  pub storage : Bool
  pub socket_path : Str
  pub socket_dir_made : Outcome
  pub socket_listened : Outcome
  pub storage_closed : Outcome

pub data Main : Type 0 where
  waiting : Main
  returned : Outcome → Main

-- the server's goroutine
pub data Serving : Type 0 where
  not_started serving answered : Serving

pub record System : Type 0 where
  pub loop : Main
  -- `ctx`, and `syncCtx`, which is cancelled with it
  pub cancelled : Bool
  pub sync_cancelled : Bool
  pub syncing : Bool
  pub forwarding : Bool
  pub serving : Serving
  pub listening : Listening
  -- `errCh`, which holds one answer
  pub err_ch : Option Outcome
  pub watcher_closed : Bool
  pub storage_is_closed : Bool

-- `Run` up to its select. That the watcher does not start is only logged.
unfoldable pub begin : Daemon → Bool → System
begin d cancelled = record {
  loop = waiting;
  cancelled = cancelled;
  sync_cancelled = cancelled;
  syncing = d.sync;
  forwarding = d.watcher && d.queue;
  serving = not_started;
  listening = not_listening;
  err_ch = none;
  watcher_closed = false;
  storage_is_closed = false;
}

-- `Close`: the watcher's error is dropped, the storage's is returned.
unfoldable pub close : Daemon → System → System × Outcome
close d s = (
  record s {
    watcher_closed = if d.watcher then true else s.watcher_closed;
    storage_is_closed = if d.storage then true else s.storage_is_closed;
  },
  if d.storage then d.storage_closed else none,
)

abbrev return_with : System × Outcome → System
return_with (s, r) = record s { loop = returned r }

-- the case `<-ctx.Done()`
unfoldable pub on_cancelled : Daemon → System → System
unfolding close
on_cancelled d s = return_with (
    close d (record s {
      sync_cancelled = true;
      listening = if d.server then stop s.listening else s.listening;
    }))

-- the case `err := <-errCh`
unfoldable pub on_answer : Daemon → Outcome → System → System
unfolding close
on_answer d (some e) s = record s { loop = returned (some e); sync_cancelled = true; err_ch = none }
on_answer d none s = return_with (close d (record s { sync_cancelled = true; err_ch = none }))

-- what the goroutine does with the outcome of the part of `Start` that does not wait
abbrev pub started : System → Listening × Outcome → System
started s (l, some e) = record s { serving = answered; listening = l; err_ch = some (some e) }
started s (l, none) = record s { serving = serving; listening = l }

-- The server's goroutine: with no server nil is sent at once, and else what `Start` returns.
unfoldable pub start_server : Daemon → System → System
start_server d s =
    if d.server
    then started s (listen d.socket_path d.socket_dir_made d.socket_listened s.listening)
    else record s { serving = answered; err_ch = some none }

-- `Serve` returns while the server waits.
unfoldable pub serve_ends : Outcome → System → System
serve_ends r s = record s {
  serving = answered;
  listening = record s.listening { serving = false };
  err_ch = some r;
}

unfoldable pub server_stops : System → System
server_stops s = record s {
  serving = answered;
  listening = stop_gracefully s.listening;
  err_ch = some none;
}

pub data Step (d : Daemon) (s t : System) : Type 0 where
  cancel : t ≡ record s { cancelled = true; sync_cancelled = true } → Step d s t
  server_starts : s.serving ≡ not_started → t ≡ start_server d s → Step d s t
  server_ends : (r : Outcome) → s.serving ≡ serving → t ≡ serve_ends r s → Step d s t
  server_sees_cancel : s.serving ≡ serving → s.cancelled ≡ true → t ≡ server_stops s → Step d s t
  run_sees_cancel : s.loop ≡ waiting → s.cancelled ≡ true → t ≡ on_cancelled d s → Step d s t
  run_sees_answer :
      (r : Outcome) → s.loop ≡ waiting → s.err_ch ≡ some r → t ≡ on_answer d r s → Step d s t

pub data Reach (d : Daemon) (cancelled : Bool) : System → Type 0 where
  begun : Reach d cancelled (begin d cancelled)
  next : {s t : System} → Reach d cancelled s → Step d s t → Reach d cancelled t
