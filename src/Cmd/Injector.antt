-- ===== src/Cmd/Injector.antt =====
-- cmd/googlysync/wire_gen.go: `InitializeDaemon`, which builds the parts one after the other, each
-- from those before it, and returns the first error. What the calls of the system, of zap, of the
-- driver and of fsnotify return, and what the database and the keyring hold, is given.
pub mod Parts
pub mod Events
use googlysync.Prelude.{Bool, true, false, Option, none, some, [], Str, Result, ok, err, Time}
use googlysync.Config.{Config, Options, System, new_config_with_options}
use googlysync.Logging
use googlysync.Logging.{Logger, new_logger}
use googlysync.Status
use googlysync.Storage.Sql.{Engine}
use googlysync.Storage.Opening.{Handle, Returns, no_handle, new_storage}
use googlysync.Auth
use googlysync.Auth.{Keyring}
use googlysync.Auth.Service.{missing_part, new_service}
use googlysync.Sync.Queue.{Queue}
use googlysync.Sync.Engine.{SyncEngine, new_engine}
use googlysync.Fswatch.Watcher.{Watcher, new_watcher}
use googlysync.Ipc
use googlysync.Ipc.{DaemonServer, new_server}
use googlysync.Daemon.{Daemon}
use googlysync.Daemon.Pipeline.{Pipe}
use googlysync.Ipc.Server.{Outcome}
use googlysync.Cmd.Wiring.{new_status_store, new_sync_queue}

-- Where the daemon is initialized.
pub record Machine : Type 1 where
  pub system : System
  pub zap : Logging.Tools
  pub driver : Returns
  pub sql : Engine
  pub db : sql.Db
  pub ring : Keyring
  pub keys : ring.Entries
  -- the error of `fsnotify.NewWatcher`
  pub refused : Option Str
  pub now : Time

-- What is open when `InitializeDaemon` returns: the database, and fsnotify's watcher.
pub record Left : Type 0 where
  pub handle : Handle
  pub notifying : Bool

module _ (m : Machine) where
  -- the parts of `daemon.Daemon`; engine, watcher and server share the status store
  pub record Wired : Type 0 where
    pub logger : Logger m.zap
    pub config : Config
    pub storage : Handle
    pub auth : Auth.State
    pub status : Status.Store
    pub sync : SyncEngine
    pub watcher : Watcher
    pub server : DaemonServer
    pub queue : Queue

  abbrev pub auth_state : Config → Auth.State
  auth_state cfg = (new_service m.sql m.ring cfg m.db m.keys).state

  -- what the server asks the service for
  abbrev pub shown_state : Auth.State → Ipc.AuthState
  shown_state a = record { signed_in = a.signed_in; account_id = a.account.id }

  abbrev pub with_watcher : Config → Logger m.zap → Handle → Result Watcher → Left × Result Wired
  with_watcher cfg logger handle (err e) = (record { handle = handle; notifying = false }, err e)
  with_watcher cfg logger handle (ok watcher) = (
    record { handle = handle; notifying = true },
    ok (record {
      logger = logger;
      config = cfg;
      storage = handle;
      auth = auth_state cfg;
      status = new_status_store cfg m.now;
      sync =
          new_engine (some handle) (some (new_status_store cfg m.now)) (some (new_sync_queue cfg));
      watcher = watcher;
      server = new_server cfg (new_status_store cfg m.now) (some (shown_state (auth_state cfg)));
      queue = new_sync_queue cfg;
    }),
  )

  abbrev pub with_service : Config → Logger m.zap → Handle → Option Str → Left × Result Wired
  with_service cfg logger handle (some e) = (record { handle = handle; notifying = false }, err e)
  with_service cfg logger handle none =
      with_watcher cfg logger handle (new_watcher m.refused (new_status_store cfg m.now))

  abbrev pub with_storage : Config → Logger m.zap → Handle × Result (Unit {0}) → Left × Result Wired
  with_storage cfg logger (handle, err e) = (record { handle = handle; notifying = false }, err e)
  with_storage cfg logger (handle, ok tt) =
      with_service cfg logger handle (missing_part (some logger) (some cfg) (some handle))

  abbrev pub with_logger : Config → Result (Logger m.zap) → Left × Result Wired
  with_logger cfg (err e) = (record { handle = no_handle; notifying = false }, err e)
  with_logger cfg (ok logger) = with_storage cfg logger (new_storage m.driver)

  abbrev pub with_config : Result Config → Left × Result Wired
  with_config (err e) = (record { handle = no_handle; notifying = false }, err e)
  with_config (ok cfg) = with_logger cfg (new_logger m.zap cfg)

  unfoldable pub initialize_daemon : Options → Left × Result Wired
  initialize_daemon opts = with_config (new_config_with_options m.system opts)

  -- the daemon as `Run` sees it: no part is missing
  abbrev pub run_of : Wired → Outcome → Outcome → Outcome → Daemon
  run_of d made listened closed = record {
    sync = true;
    watcher = true;
    queue = true;
    server = true;
    storage = true;
    socket_path = d.server.socket_path;
    socket_dir_made = made;
    socket_listened = listened;
    storage_closed = closed;
  }

  -- the way of its events when `Run` begins
  abbrev pub pipe_of : Wired → Pipe
  pipe_of d = record {
    watcher = d.watcher;
    watching = true;
    syncing = true;
    held = none;
    queue = d.queue;
    handled = [];
  }
