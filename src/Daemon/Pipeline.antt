-- ===== src/Daemon/Pipeline.antt =====
-- The way of an event through the daemon: the watcher's channel, the goroutine of internal/daemon/
-- daemon.go that forwards it, the queue, and the engine. The goroutines take their steps in any
-- order; watcher and engine share the status store.
pub mod Order
pub mod Burst
pub mod Drain
pub mod Calm
pub mod Handled
pub mod Shown
mod Examples
use googlysync.Prelude.{
  Bool, true, false, Option, none, some, List, [], ◌∷◌, ◌++◌, if◌then◌else◌, Str, Time,
}
use googlysync.Config.{Config}
use googlysync.Status.{Store}
use googlysync.Fswatch.Ops.{Masks}
use googlysync.Fswatch.Paths.{Filepath}
use googlysync.Fswatch.Watcher
use googlysync.Fswatch.Watcher.{Event, Watcher, collect}
use googlysync.Sync.Queue.{Queue, enqueue, receive}
use googlysync.Sync.Engine

pub record Pipe : Type 0 where
  pub watcher : Watcher
  -- whether the loops of the watcher and of the engine still run
  pub watching : Bool
  pub syncing : Bool
  -- the forwarder's `evt`, between its receive and its `Enqueue`
  pub held : Option Event
  pub queue : Queue
  -- what the engine has handled, oldest first
  pub handled : List Event

pub data Action : Type 0 where
  watches : Watcher.Input → Action
  forwarder_receives : Action
  forwarder_enqueues : Action
  engine_receives : Time → Time → Action
  engine_ticks : Time → Time → Action
  engine_stops : Time → Action

-- whether a turn of the watcher's loop is its last
abbrev pub goes_on : Watcher.Input → Bool
goes_on (Watcher.Input.raw_event a) = true
goes_on (Watcher.Input.raw_error now) = true
goes_on (Watcher.Input.ticks clock order) = true
goes_on Watcher.Input.closed = false
goes_on Watcher.Input.cancelled = false

-- what a turn of the watcher's loop flushes
abbrev pub flushes : Watcher.Input → Watcher → List Event
flushes (Watcher.Input.raw_event a) w = []
flushes (Watcher.Input.raw_error now) w = []
flushes (Watcher.Input.ticks clock order) w = (collect (clock 0) order w.pending).0
flushes Watcher.Input.closed w = []
flushes Watcher.Input.cancelled w = []

abbrev pub or_store : Store → Option Store → Store
or_store s none = s
or_store s (some t) = t

-- a turn of the engine's loop, on the store that it shares with the watcher
abbrev pub engine_turn : Engine.Input → Pipe → Pipe
engine_turn i s = record s {
  watcher = record s.watcher {
    status = or_store s.watcher.status (Engine.run (i ∷ []) (some s.watcher.status));
  };
}

-- `for evt := range d.Watcher.Events()`
abbrev pub taken : Pipe → Option Event → List Event → Pipe
taken s none (e ∷ es) = record s { watcher = record s.watcher { out = es }; held = some e }
taken s none [] = s
taken s (some h) es = s

-- `d.Queue.Enqueue(evt)`
abbrev pub put : Pipe → Option Event → Pipe
put s none = s
put s (some e) = record s { held = none; queue = enqueue e s.queue }

abbrev pub given : Pipe → Time → Time → Option (Event × Queue) → Pipe
given s before after none = s
given s before after (some (e, q)) =
    engine_turn (Engine.Input.event e before after)
      (record s { queue = q; handled = s.handled ++ e ∷ [] })

module _ (fp : Filepath) (masks : Masks) (cfg : Config) (accepts : Str → Bool) where
  abbrev pub watch : Watcher.Input → Pipe → Pipe
  watch i s = record s {
    watcher = Watcher.run fp masks cfg accepts (i ∷ []) s.watcher;
    watching = goes_on i;
  }

  -- A step of one of the goroutines; one that cannot be taken changes nothing.
  unfoldable pub act : Action → Pipe → Pipe
  act (watches i) s = if s.watching then watch i s else s
  act forwarder_receives s = taken s s.held s.watcher.out
  act forwarder_enqueues s = put s s.held
  act (engine_receives before after) s =
      if s.syncing then given s before after (receive s.queue) else s
  act (engine_ticks before after) s =
      if s.syncing then engine_turn (Engine.Input.tick before after) s else s
  act (engine_stops now) s =
      if s.syncing
      then record (engine_turn (Engine.Input.cancelled now) s) { syncing = false }
      else s

  abbrev pub act_all : List Action → Pipe → Pipe
  act_all [] s = s
  act_all (a ∷ as') s = act_all as' (act a s)
