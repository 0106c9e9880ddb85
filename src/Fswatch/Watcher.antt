-- ===== src/Fswatch/Watcher.antt =====
-- The watcher of internal/fswatch/fswatch.go: what it keeps between two turns of `run`, and what a
-- turn does. Methods that touch `pending` hold the mutex, and `run` is the only caller. Log lines
-- are not modelled. A loop over the map `pending` is given the order in which it meets the keys.
pub mod Burst
pub mod Flush
pub mod Emit
use googlysync.Prelude.{
  ℕ, suc, ◌+◌, Bool, true, false, ◌&&◌, Option, none, some, List, [], ◌∷◌, ◌++◌, leb, ltb,
  if◌then◌else◌, length, Str, lit, is_empty, Time, Result, ok, err,
}
use googlysync.Prelude.Dict.{Dict, get, put, delete}
use googlysync.Prelude.Channel.{offer}
use googlysync.Config.{Config}
use googlysync.Status
use googlysync.Status.{idle, error, brief, update, add_event}
use googlysync.Fswatch.Ops.{Op, unknown, op_string, merge_op, Masks, has, normalize_op}
use googlysync.Fswatch.Paths.{Filepath, should_ignore, path_rel}
use googlysync.Fswatch.Walk.{Tree, add_recursive}

-- A normalized event. In `pending`, `when` is the time at which it is due.
pub record Event : Type 0 where
  pub path : Str
  pub op : Op
  pub when : Time

-- `watched` are the directories added to fsnotify, `out` what waits in the channel.
pub record Watcher : Type 0 where
  pub status : Status.Store
  pub out : List Event
  pub pending : Dict Event
  pub watched : List Str

-- An event of fsnotify as it is handled: its name and bits, the clock, whether `os.Stat` finds a
-- directory there, and what a walk of the name meets.
pub record Arrival : Type 0 where
  pub name : Str
  pub op : ℕ
  pub now : Time
  pub is_dir : Bool
  pub entry : Option Tree

-- the capacity of `out`
abbrev pub out_capacity : ℕ
out_capacity = 256

-- 300 ms
abbrev pub debounce : ℕ
debounce = 300_000_000

-- the operation of `pending[path]` merged with the new one
abbrev pub merge_pending : Option Event → Op → Op
merge_pending none op = op
merge_pending (some existing) op = merge_op existing.op op

-- `pending[path] = Event{…}` with the merged operation
abbrev pub remember : Str → Time → Op → Dict Event → Dict Event
remember path now op pending =
    put pending path
      (record { path = path; op = merge_pending (get pending path) op; when = now + debounce })

-- `if op == OpUnknown { return }` before that
abbrev pub remember_known : Str → Time → Op → Dict Event → Dict Event
remember_known path now unknown pending = pending
remember_known path now op pending = remember path now op pending

-- What a pending event due at a time is flushed as: the event's operation.
abbrev pub due : Time → Option Event → Option Op
due now none = none
due now (some e) = if leb e.when now then some e.op else none

-- The first loop of `flushPending`, over the keys in the order given: what is ready, and what
-- stays pending.
unfoldable pub collect : Time → List Str → Dict Event → List Event × Dict Event
collect now [] pending = ([], pending)
collect now (k ∷ ks) pending = elim (due now (get pending k)) [
  | none ↦ collect now ks pending
  | some op ↦
      let (ready, rest) = collect now ks (delete pending k) in
      (record { path = k; op = op; when = now } ∷ ready, rest)
]

-- What a turn of `run` receives; a closed channel and the end of the context stop the loop.
pub data Input : Type 0 where
  raw_event : Arrival → Input
  raw_error : Time → Input
  ticks : (ℕ → Time) → List Str → Input
  closed : Input
  cancelled : Input

module _ (fp : Filepath) (masks : Masks) (cfg : Config) (accepts : Str → Bool) where
  unfoldable pub handle_event : Arrival → Watcher → Watcher
  handle_event a w = if should_ignore fp cfg a.name then w else record w {
    watched =
        if has a.op masks.create_bit && a.is_dir
        then (add_recursive (should_ignore fp cfg) accepts a.entry w.watched).0
        else w.watched;
    pending = remember_known a.name a.now (normalize_op masks a.op) w.pending;
  }

  -- One turn of the second loop: the status shows the event, and the channel takes it if it has
  -- room. The clock's readings are numbered.
  unfoldable pub emit : (ℕ → Time) → ℕ → Event → Watcher → Watcher
  emit clock i e w = record w {
    status =
        add_event
          (record { op = op_string e.op; path = path_rel fp e.path cfg.sync_root; when = e.when })
          (clock i) (clock (i + 1)) w.status;
    out = offer out_capacity w.out e;
  }

  unfoldable pub emit_all : (ℕ → Time) → ℕ → List Event → Watcher → Watcher
  emit_all clock i [] w = w
  emit_all clock i (e ∷ es) w = emit_all clock (i + 2) es (emit clock i e w)

  -- `flushPending`: the clock is read first for `now`, then by the status.
  unfoldable pub flush_pending : (ℕ → Time) → List Str → Watcher → Watcher
  flush_pending clock order w =
      let (ready, rest) = collect (clock 0) order w.pending in
      emit_all clock 1 ready (record w { pending = rest })

  -- `Start`: nothing without a sync root; otherwise the root is made, walked and watched. The result
  -- is true where no error is returned, in which case `run` has been started.
  unfoldable pub start : Bool → Option Tree → Time → Watcher → Watcher × Bool
  start made root now w =
      if is_empty cfg.sync_root
      then (w, true)
      else if made
      then (let (watched, done) = add_recursive (should_ignore fp cfg) accepts root w.watched in
          let w' = record w { watched = watched } in
          if done
          then (record w' { status = update (brief idle (lit "watching")) now w.status }, true)
          else (w', false))
      else (w, false)

  unfoldable pub run : List Input → Watcher → Watcher
  run [] w = w
  run (raw_event a ∷ is) w = run is (handle_event a w)
  run (raw_error now ∷ is) w =
      run is (record w { status = update (brief error (lit "fswatch error")) now w.status })
  run (ticks clock order ∷ is) w = run is (flush_pending clock order w)
  run (closed ∷ is) w = w
  run (cancelled ∷ is) w = w

-- `NewWatcher`, of what `fsnotify.NewWatcher` returns, and the status store
unfoldable pub new_watcher : Option Str → Status.Store → Result Watcher
new_watcher (some e) status = err e
new_watcher none status = ok (record { status = status; out = []; pending = []; watched = [] })
