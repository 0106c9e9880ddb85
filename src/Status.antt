-- ===== src/Status.antt =====
-- internal/status/status.go. Each method holds the store's mutex from start to end, so it is one
-- step: a function from the store before to the store after. `max_events` is only ever assigned a
-- positive number, and is a natural number here.
pub mod Ring
pub mod Calls
pub mod History
pub mod Keeping
mod Examples
use googlysync.Prelude.{
  ℕ, zero, suc, ◌-◌, ℤ, pos, negsuc, Bool, List, [], ◌∷◌, ◌++◌, ltb, if◌then◌else◌, length, drop,
  Str, lit, is_empty, Time, zero_time, or_now,
}

pub data State : Type 0 where
  unspecified idle syncing error paused : State

-- An event as the status shows it: the operation's label, the path and the time.
pub record Event : Type 0 where
  pub op : Str
  pub path : Str
  pub when : Time

pub record Snapshot : Type 0 where
  pub state : State
  pub message : Str
  pub last_event : Str
  pub updated_at : Time
  pub recent_events : List Event

pub record Store : Type 0 where
  pub snapshot : Snapshot
  pub max_events : ℕ
  pub event_ring : List Event

-- `status.Snapshot{State: s, Message: m}`, the other fields zero
unfoldable pub brief : State → Str → Snapshot
brief s m = record {
  state = s;
  message = m;
  last_event = [];
  updated_at = zero_time;
  recent_events = [];
}

unfoldable pub new_store : Time → Store
unfolding brief
new_store now = record {
  snapshot = record (brief idle (lit "idle")) { updated_at = now };
  max_events = 20;
  event_ring = [];
}

-- `if len(ring) > max { ring = ring[len(ring)-max:] }`
pub trim : ℕ → List Event → List Event
trim max ring = if ltb max (length ring) then drop (length ring - max) ring else ring

resize : ℕ → Store → Store
resize max s =
    let ring = trim max s.event_ring in
    record {
      snapshot = record s.snapshot { recent_events = ring };
      max_events = max;
      event_ring = ring;
    }

unfoldable pub set_max_events : ℤ → Store → Store
unfolding resize trim
set_max_events (pos zero) s = s
set_max_events (pos (suc n)) s = resize (suc n) s
set_max_events (negsuc n) s = s

unfoldable pub update : Snapshot → Time → Store → Store
update snap now s = record s {
  snapshot = record snap {
    updated_at = or_now snap.updated_at now;
    last_event = if is_empty snap.last_event then s.snapshot.last_event else snap.last_event;
    recent_events = s.event_ring;
  };
}

-- `evt.Op + " " + evt.Path`
unfoldable pub label : Event → Str
label evt = evt.op ++ (lit " " ++ evt.path)

-- The clock is read once for an event with no time, and once for `UpdatedAt`.
unfoldable pub add_event : Event → Time → Time → Store → Store
unfolding trim label
add_event evt stamp now s =
    let evt' = record evt { when = or_now evt.when stamp } in
    let ring = trim s.max_events (s.event_ring ++ evt' ∷ []) in
    record s {
      event_ring = ring;
      snapshot = record s.snapshot {
        last_event = label evt';
        updated_at = now;
        recent_events = ring;
      };
    }

unfoldable pub current : Store → Snapshot
current s = record s.snapshot { recent_events = s.event_ring }
