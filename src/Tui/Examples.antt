-- ===== src/Tui/Examples.antt =====
-- The status view on small inputs.
use googlysync.Prelude.{ℕ, suc, true, false, ◌+◌, ◌≡◌, refl, none, List, [], ◌∷◌, ◌++◌, lit, arith}
use googlysync.Status
use googlysync.Ipc.{Protobuf}
use googlysync.Tui.{EventMsg, Model, Formats, view}
use googlysync.Tui.Lines.{with_events, view_newest_hidden}
use googlysync.Tui.Polls.{here, next, refreshed, launch, Reach-IsBusy, deliver, refresh_key}
use googlysync.Tui.{key}

-- timestamps that are the times themselves
abbrev protobuf : Protobuf
protobuf = record { Timestamp = ℕ; new = λ t. t; as_time = λ t. t; as_time-new = λ t. refl }

abbrev store : Status.Store
store = record {
  snapshot = record {
    state = Status.State.syncing;
    message = lit "sync tick";
    last_event = [];
    updated_at = 0;
    recent_events = [];
  };
  max_events = 20;
  event_ring = record { op = lit "WRITE"; path = lit "a"; when = 9 } ∷ [];
}

abbrev formats : Formats
formats = record { clock_time = λ t. lit "12:00:00"; rfc3339 = λ t. lit "2024-01-01T12:00:00Z" }

abbrev event : EventMsg
event = record { op = lit "WRITE"; path = lit "a"; at_time = 9 }

abbrev ten : List EventMsg
ten = event ∷ event ∷ event ∷ event ∷ event ∷ event ∷ event ∷ event ∷ event ∷ event ∷ []

abbrev model : Model
model = record {
  socket_path = [];
  interval = 2;
  status = record { state = lit "IDLE"; message = lit "idle"; at_time = 9; events = [] };
  failed = none;
  quitting = false;
  show_events = true;
}

view_newest_hidden_example :
    view formats (with_events formats model (ten ++ event ∷ []))
    ≡ view formats (with_events formats model ten)
view_newest_hidden_example = view_newest_hidden formats model ten event (omega arith)

-- after one refresh two polls are under way
Reach-IsBusy_example :
    let r =
      deliver
        (key refresh_key)
        (record (launch [] 2) { refreshes = suc (launch [] 2).refreshes }) in
    r.polls + r.waits ≡ suc r.refreshes
Reach-IsBusy_example = Reach-IsBusy [] 2 (next here refreshed)
