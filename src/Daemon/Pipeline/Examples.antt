-- ===== src/Daemon/Pipeline/Examples.antt =====
-- An event on its way through the daemon.
use googlysync.Prelude.{
  map, last, or_now, ok, some, ℕ, any, false, ◌+◌, true, ◌≡◌, refl, none, List, [], ◌∷◌, ◌++◌, lit,
  str_eq, arith,
}
use googlysync.Prelude.Sublists.{Sub}
use googlysync.Prelude.Dict.{get, put, delete}
use googlysync.Fswatch.Ops.{create, remove, write, merge_op, normalize_op}
use googlysync.Fswatch.Paths.{should_ignore, base, has_suffix}
use googlysync.Fswatch.Watcher.Flush.{events_at}
use googlysync.Fswatch.Watcher
use googlysync.Fswatch.Watcher.{Event, handle_event, flush_pending}
use googlysync.Fswatch.Examples.{masks, fp, cfg, accepts, watcher, loaded, clock}
use googlysync.Sync.Queue.{enqueue}
use googlysync.Daemon.Pipeline.{
  Pipe, Action, watches, forwarder_receives, forwarder_enqueues, engine_receives, engine_ticks, act,
  act_all,
}
use googlysync.Daemon.Pipeline.Order.{contents, flushed_by_all, act_all-Sub}
use googlysync.Daemon.Pipeline.Handled.{handled_once}
use googlysync.Ipc.{Protobuf, map_state, get_status}
use googlysync.Tui.{status_msg}
use googlysync.Tui.Answer.{answer, state_name, shown_event}
use googlysync.Status
use googlysync.Status.{Store}
use googlysync.Daemon.Pipeline.Shown.{shown_by_all, polled}
use googlysync.Daemon.Pipeline.Drain.{rounds, IsDrained, drain}

-- a queue of one that is full, and an event in the watcher's channel
abbrev full : Pipe
full = record {
  watcher = record watcher { out = record { path = lit "/r/b"; op = remove; when = 2 } ∷ [] };
  watching = true;
  syncing = true;
  held = none;
  queue = record {
    capacity = 1;
    waiting = record { path = lit "/r/c"; op = write; when = 1 } ∷ [];
  };
  handled = [];
}

-- a pipe in which nothing waits yet
abbrev silent : Pipe
silent = record full { watcher = loaded; queue = record { capacity = 4; waiting = [] } }

abbrev actions : List Action
actions =
    watches (Watcher.Input.ticks clock (lit "/r/a" ∷ []))
    ∷ forwarder_receives
    ∷ engine_ticks 5 6
    ∷ forwarder_enqueues
    ∷ engine_receives 7 8
    ∷ []

-- The forwarder does not wait for the engine, and the event is lost.
lost_test :
    contents (act_all fp masks cfg accepts (forwarder_receives ∷ forwarder_enqueues ∷ []) full)
    ≡ full.queue.waiting
unfolding act enqueue
lost_test = refl

act_all-Sub_example :
    Sub
      (contents (act_all fp masks cfg accepts actions full))
      (contents full ++ flushed_by_all fp masks cfg accepts actions full)
act_all-Sub_example = act_all-Sub fp masks cfg accepts actions full

drain_example : IsDrained (act_all fp masks cfg accepts (rounds clock 0 3) full) (contents full)
drain_example =
    drain fp masks cfg accepts clock 0 3 full refl (omega arith) (omega arith) (omega arith)

abbrev quiet : Pipe
quiet = record silent { watcher = watcher }

-- the readings of the clock from a time on
abbrev from : ℕ → ℕ → ℕ
from t i = t + i

abbrev tick_at : ℕ → Action
tick_at t = watches (Watcher.Input.ticks (from t) (lit "/r/a" ∷ []))

abbrev arrival_at : ℕ → ℕ → Action
arrival_at bits t = watches (
    Watcher.Input.raw_event
      (record { name = lit "/r/a"; op = bits; now = t; is_dir = false; entry = none }))

-- Created and then removed, with a tick each 200 ms: the third is the first to find 300 ms of quiet.
abbrev busy : List Action
busy =
    arrival_at 1 10
    ∷ tick_at 200_000_000
    ∷ forwarder_receives
    ∷ arrival_at 4 250_000_000
    ∷ engine_ticks 5 6
    ∷ tick_at 400_000_000
    ∷ []

handled_once_example :
    events_at
      (lit "/r/a")
      (act_all fp masks cfg accepts
        (busy ++ tick_at 600_000_000 ∷ [] ++ rounds (from 600_000_000) 1 2)
        quiet).handled
    ≡ record { path = lit "/r/a"; op = remove; when = 600_000_000 } ∷ []
unfolding get put delete should_ignore base any has_suffix str_eq normalize_op merge_op act
    handle_event flush_pending Watcher.collect Watcher.run Watcher.emit_all
handled_once_example =
    handled_once fp masks cfg accepts (lit "/r/a") (from 600_000_000) (lit "/r/a" ∷ []) busy quiet
      (create, 10) ((remove, 250_000_000) ∷ []) 1 2 refl refl refl (omega arith, (omega arith, tt))
      refl (omega arith) refl (omega arith) ((omega arith, omega arith), omega arith)

abbrev protobuf : Protobuf
protobuf = record { Timestamp = ℕ; new = λ t. t; as_time = λ t. t; as_time-new = λ t. refl }

abbrev after_actions : Store
after_actions = (act_all fp masks cfg accepts actions silent).watcher.status

-- The event that the watcher flushes is shown, whatever becomes of it.
polled_example :
    answer protobuf (ok tt) (ok tt) (ok (some (get_status protobuf after_actions))) 9
    ≡ status_msg (record {
      state = state_name (map_state after_actions.snapshot.state);
      message = after_actions.snapshot.message;
      at_time = or_now after_actions.snapshot.updated_at 9;
      events = map (shown_event protobuf) (
          last silent.watcher.status.max_events
            (silent.watcher.status.event_ring ++ shown_by_all fp masks cfg accepts actions silent));
    })
unfolding Status.new_store
polled_example = polled fp masks cfg accepts protobuf actions silent 9 (omega arith)
