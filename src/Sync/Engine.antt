-- ===== src/Sync/Engine.antt =====
-- internal/sync/sync.go: the engine's loop, which so far only reports to the status store. The store
-- may be missing.
use googlysync.Prelude.{◌≡◌, refl, ◌∙◌, Option, none, some, List, [], ◌∷◌, Str, lit, Time}
use googlysync.Status.{State, idle, syncing, Store, brief, update}
use googlysync.Storage.Opening.{Handle}
use googlysync.Sync.Queue.{Queue}
use googlysync.Fswatch.Watcher

-- what an engine refers to, each of which may be missing
pub record SyncEngine : Type 0 where
  pub storage : Option Handle
  pub status : Option Store
  pub queue : Option Queue

unfoldable pub new_engine : Option Handle → Option Store → Option Queue → SyncEngine
new_engine storage status queue = record { storage = storage; status = status; queue = queue }

-- `if e.Status != nil { e.Status.Update(status.Snapshot{State: s, Message: m}) }`
abbrev report : State → Str → Time → Option Store → Option Store
report s m now none = none
report s m now (some store) = some (update (brief s m) now store)

unfoldable pub handle_event : Watcher.Event → Time → Time → Option Store → Option Store
handle_event evt before after store =
    report idle (lit "idle") after (report syncing (lit "processing event") before store)

-- What the loop receives, with its readings of the clock.
pub data Input : Type 0 where
  event : Watcher.Event → Time → Time → Input
  tick : Time → Time → Input
  cancelled : Time → Input

unfoldable pub run : List Input → Option Store → Option Store
unfolding handle_event
run [] store = store
run (event evt before after ∷ is) store = run is (handle_event evt before after store)
run (tick before after ∷ is) store =
    run is (report idle (lit "idle") after (report syncing (lit "sync tick") before store))
run (cancelled now ∷ is) store = report idle (lit "idle") now store

-- What the engine leaves of a store: idle, with the events and their label as they were.
pub record IsQuiet (before after : Store) : Type 0 where
  pub state : after.snapshot.state ≡ idle
  pub message : after.snapshot.message ≡ lit "idle"
  pub last_event : after.snapshot.last_event ≡ before.snapshot.last_event
  pub events : after.event_ring ≡ before.event_ring
  pub max_events : after.max_events ≡ before.max_events

IsQuiet-trans : {r s t : Store} → IsQuiet r s → IsQuiet s t → IsQuiet r t
IsQuiet-trans p q = record {
  state = q.state;
  message = q.message;
  last_event = q.last_event ∙ p.last_event;
  events = q.events ∙ p.events;
  max_events = q.max_events ∙ p.max_events;
}

-- a report of the idle state, after any other report
idle-IsQuiet :
    (m : Str) (t₁ t₂ : Time) (s : Store)
    → IsQuiet s (update (brief idle (lit "idle")) t₂ (update (brief syncing m) t₁ s))
unfolding update brief
idle-IsQuiet m t₁ t₂ s = record {
  state = refl;
  message = refl;
  last_event = refl;
  events = refl;
  max_events = refl;
}

run_rest :
    (is : List Input) (r s : Store)
    → IsQuiet r s
    → (t : Store) × (run is (some s) ≡ some t) × IsQuiet r t
unfolding run update brief
run_rest [] r s h = (s, refl, h)
run_rest (event evt before after ∷ is) r s h =
    run_rest is r _ (IsQuiet-trans h (idle-IsQuiet (lit "processing event") before after s))
run_rest (tick before after ∷ is) r s h =
    run_rest is r _ (IsQuiet-trans h (idle-IsQuiet (lit "sync tick") before after s))
run_rest (cancelled now ∷ is) r s h = (
  _,
  refl,
  record {
    state = refl;
    message = refl;
    last_event = h.last_event;
    events = h.events;
    max_events = h.max_events;
  },
)

-- Whenever the engine has handled an event, a tick or its end, and whatever it handles after that,
-- the status is idle, whatever it was before, an error included; and the events that the status
-- keeps, their maximum and the label of the last one are as they were.
pub run-IsQuiet :
    (i : Input) (is : List Input) (s : Store)
    → (t : Store) × (run (i ∷ is) (some s) ≡ some t) × IsQuiet s t
unfolding run update brief
run-IsQuiet (event evt before after) is s =
    run_rest is s _ (idle-IsQuiet (lit "processing event") before after s)
run-IsQuiet (tick before after) is s =
    run_rest is s _ (idle-IsQuiet (lit "sync tick") before after s)
run-IsQuiet (cancelled now) is s = (
  _,
  refl,
  record { state = refl; message = refl; last_event = refl; events = refl; max_events = refl },
)
