-- ===== src/Tui/Answer.antt =====
-- `pollStatusCmd` of cmd/googlysync/tui.go: what the view makes of the daemon's answer.
use googlysync.Prelude.{
  arith, ◌≡◌, refl, Bool-cases, inl, inr, Option, none, some, List, [], ◌∷◌, map, Str, lit, Time,
  zero_time, or_now, is_zero, Result, ok, err,
}
use googlysync.Status
use googlysync.Ipc.{
  SyncState, state_unspecified, state_idle, state_syncing, state_error, state_paused, map_state,
  Protobuf, StatusEvent, ProtoStatus, StatusReply, to_proto_timestamp, to_proto_events, get_status,
}
use googlysync.Tui.{EventMsg, Msg, status_msg, err_msg}

-- `State.String()`: the names in proto/common.proto
unfoldable pub state_name : SyncState → Str
state_name state_unspecified = lit "SYNC_STATE_UNSPECIFIED"
state_name state_idle = lit "SYNC_STATE_IDLE"
state_name state_syncing = lit "SYNC_STATE_SYNCING"
state_name state_error = lit "SYNC_STATE_ERROR"
state_name state_paused = lit "SYNC_STATE_PAUSED"

module _ (pb : Protobuf) where
  open pb use {Timestamp, new, as_time, as_time-new}

  abbrev time_or : Time → Option Timestamp → Time
  time_or t none = t
  time_or t (some stamp) = as_time stamp

  unfoldable pub to_event_msgs : List (Option (StatusEvent pb)) → List EventMsg
  to_event_msgs [] = []
  to_event_msgs (none ∷ events) = to_event_msgs events
  to_event_msgs (some evt ∷ events) =
      record { op = evt.op; path = evt.path; at_time = time_or zero_time evt.occurred_at }
      ∷ to_event_msgs events

  read_status : Option (ProtoStatus pb) → Time → Msg
  unfolding state_name to_event_msgs
  read_status none now = err_msg (lit "no status returned")
  read_status (some st) now = status_msg (record {
    state = state_name st.state;
    message = st.message;
    at_time = time_or now st.updated_at;
    events = to_event_msgs (map some st.recent_events);
  })

  abbrev read_reply : Option (StatusReply pb) → Time → Msg
  read_reply none now = err_msg (lit "no status returned")
  read_reply (some reply) now = read_status reply.status now

  -- What the command sends, from the error of each step in turn and the daemon's reply.
  unfoldable pub answer :
      Result (Unit {0}) → Result (Unit {0}) → Result (Option (StatusReply pb)) → Time → Msg
  unfolding read_status
  answer (err e) dialled replied now = err_msg e
  answer (ok _) (err e) replied now = err_msg e
  answer (ok _) (ok _) (err e) now = err_msg e
  answer (ok _) (ok _) (ok reply) now = read_reply reply now

  time_or-to_proto_timestamp : (d t : Time) → time_or d (to_proto_timestamp pb t) ≡ or_now t d
  unfolding to_proto_timestamp
  time_or-to_proto_timestamp d t = elim (Bool-cases (is_zero t)) [
    | inl e ↦ rw e refl
    | inr e ↦ rw e (as_time-new t)
  ]

  -- An event of the store as the view has it.
  abbrev pub shown_event : Status.Event → EventMsg
  shown_event e = record { op = e.op; path = e.path; at_time = e.when }

  or_now_zero : (t : Time) → or_now t zero_time ≡ t
  or_now_zero t = ground arith

  to_event_msgs-to_proto_events :
      (es : List Status.Event)
      → to_event_msgs (map some (to_proto_events pb es)) ≡ map shown_event es
  unfolding to_event_msgs to_proto_events
  to_event_msgs-to_proto_events [] = refl
  to_event_msgs-to_proto_events (e ∷ es) =
      rw
        (to_event_msgs-to_proto_events es, time_or-to_proto_timestamp zero_time e.when, or_now_zero)
        refl

  -- The view shows what the store holds: polling a daemon that answers gives a message with the name
  -- of the store's state, its message, the time of its last update, and its events in their order,
  -- with their operations, paths and times.
  pub answer-get_status :
      (s : Status.Store) (now : Time)
      → answer (ok tt) (ok tt) (ok (some (get_status pb s))) now
        ≡ status_msg (record {
          state = state_name (map_state s.snapshot.state);
          message = s.snapshot.message;
          at_time = or_now s.snapshot.updated_at now;
          events = map shown_event s.event_ring;
        })
  unfolding answer get_status
  answer-get_status s now =
      rw
        (
          time_or-to_proto_timestamp now s.snapshot.updated_at,
          to_event_msgs-to_proto_events s.event_ring,
        )
        refl

-- Different states of the store have different names in the view.
pub state_name-injective :
    (a b : Status.State) → state_name (map_state a) ≡ state_name (map_state b) → a ≡ b
unfolding state_name map_state
state_name-injective a b h = ground arith
