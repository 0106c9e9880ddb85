-- ===== src/Ipc.antt =====
-- internal/ipc: what the server answers. The messages are those of proto/*.proto; the conversion of
-- times, which protobuf does, is a parameter. Request ids and contexts that the handlers ignore are
-- left out where they carry nothing.
pub mod Watch
pub mod Server
use googlysync.Prelude.{
  Bool, true, false, ◌≡◌, Option, none, some, List, [], ◌∷◌, ◌++◌, if◌then◌else◌, Str, lit,
  is_empty, Time, is_zero,
}
use googlysync.Config.{Config}
use googlysync.Status
use googlysync.Status.{idle, syncing, error, paused, unspecified, current}

-- `timestamppb.New` and `AsTime`, which give back the time that they are given.
pub record Protobuf : Type 1 where
  pub Timestamp : Type 0
  pub new : Time → Timestamp
  pub as_time : Timestamp → Time
  pub as_time-new : (t : Time) → as_time (new t) ≡ t

-- Status.SyncState of proto/common.proto
pub data SyncState : Type 0 where
  state_unspecified state_idle state_syncing state_error state_paused : SyncState

unfoldable pub map_state : Status.State → SyncState
map_state idle = state_idle
map_state syncing = state_syncing
map_state error = state_error
map_state paused = state_paused
map_state unspecified = state_unspecified

pub record AuthState : Type 0 where
  pub signed_in : Bool
  pub account_id : Str

-- GetAuthStateResponse
pub record AuthReply : Type 0 where
  pub signed_in : Bool
  pub account_id : Str
  pub request_id : Str

-- `GetAuthState`, of a server that may have no auth service
unfoldable pub get_auth_state : Option AuthState → AuthReply
get_auth_state none = record { signed_in = false; account_id = []; request_id = lit "req-0" }
get_auth_state (some state) = record {
  signed_in = state.signed_in;
  account_id = state.account_id;
  request_id = lit "req-0";
}

-- What `NewServer` is given, and its version.
pub record DaemonServer : Type 0 where
  pub socket_path : Str
  pub version : Str
  pub status : Status.Store
  pub auth : Option AuthState

unfoldable pub new_server : Config → Status.Store → Option AuthState → DaemonServer
new_server cfg status auth = record {
  socket_path = cfg.socket_path;
  version = lit "dev";
  status = status;
  auth = auth;
}

unfoldable pub with_version : Str → DaemonServer → DaemonServer
with_version version s = record s { version = if is_empty version then s.version else version }

-- PingResponse and ShutdownResponse, each with its one field
unfoldable pub ping : DaemonServer → Str
ping s = s.version

unfoldable pub shutdown : DaemonServer → Str
shutdown s = lit "req-0"

module _ (pb : Protobuf) where
  open pb use {Timestamp, new}

  pub record StatusEvent : Type 0 where
    pub op : Str
    pub path : Str
    pub occurred_at : Option Timestamp

  pub record ProtoStatus : Type 0 where
    pub state : SyncState
    pub message : Str
    pub updated_at : Option Timestamp
    pub recent_events : List StatusEvent

  -- GetStatusResponse, and WatchStatusResponse, which has the same fields
  pub record StatusReply : Type 0 where
    pub status : Option ProtoStatus
    pub request_id : Str

  unfoldable pub to_proto_timestamp : Time → Option Timestamp
  to_proto_timestamp t = if is_zero t then none else some (new t)

  unfoldable pub to_proto_events : List Status.Event → List StatusEvent
  unfolding to_proto_timestamp
  to_proto_events [] = []
  to_proto_events (evt ∷ events) =
      record { op = evt.op; path = evt.path; occurred_at = to_proto_timestamp evt.when }
      ∷ to_proto_events events

  unfoldable pub to_proto_status : Status.Snapshot → ProtoStatus
  unfolding map_state to_proto_timestamp to_proto_events
  to_proto_status snapshot = record {
    state = map_state snapshot.state;
    message = snapshot.message;
    updated_at = to_proto_timestamp snapshot.updated_at;
    recent_events = to_proto_events snapshot.recent_events;
  }

  unfoldable pub get_status : Status.Store → StatusReply
  unfolding to_proto_status current
  get_status s = record { status = some (to_proto_status (current s)); request_id = lit "req-0" }
