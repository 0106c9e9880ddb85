-- ===== src/Memory/Initialized.antt =====
-- A daemon that `InitializeDaemon` returns, over an empty database of functions.
use googlysync.Prelude.{
  List, any, true, false, ◌+◌, ◌≡◌, ◌⊎◌, refl, none, some, [], ◌∷◌, lit, str_eq, ok, err, arith,
}
use googlysync.Config.{
  Options, System, defaults, dir_or, from_file, apply_config_file, apply_file, apply_env,
  override_int, new_config, new_config_with_options, Config,
}
use googlysync.Config.Lists.{split_list}
use googlysync.Config.Ints.{atoi}
use googlysync.Config.Resolve.{empty_file}
use googlysync.Logging.Sinks.{file_sink}
use googlysync.Logging.{sink_of, new_logger}
use googlysync.Storage.Opening.{new_storage, migrate}
use googlysync.Prelude.Dict.{get, put, delete}
use googlysync.Fswatch.Paths.{should_ignore, base, has_suffix}
use googlysync.Fswatch.Examples.{masks, fp, accepts}
use googlysync.Fswatch.Ops.{write, normalize_op}
use googlysync.Fswatch.Watcher
use googlysync.Fswatch.Watcher.{new_watcher, debounce, handle_event, flush_pending}
use googlysync.Auth.Service.{missing_part}
use googlysync.Daemon.Pipeline.{Action, watches, forwarder_receives, engine_ticks, act, act_all}
use googlysync.Daemon.Pipeline.Order.{contents, flushed_by_all}
use googlysync.Ipc.{new_server}
use googlysync.Sync.Engine.{new_engine}
use googlysync.Cmd.Wiring.{new_status_store, new_sync_queue}
use googlysync.Cmd.Injector.{Machine, Wired, initialize_daemon, pipe_of, auth_state, shown_state}
use googlysync.Cmd.Injector.Parts.{Started, Refused, Leaked, initialize_daemon-Ended}
use googlysync.Cmd.Injector.Events.{wired_burst}
use googlysync.Memory.{Store, memory}
use googlysync.Memory.Sessions.{pocket}

abbrev system : System
system = record {
  getenv = λ v. [];
  user_config_dir = ok (lit "/home/u/.config");
  user_home_dir = ok (lit "/home/u");
  join = λ ps. lit "/x";
  read_file = λ p. err (lit "no file");
  decode = λ t. ok empty_file;
}

abbrev machine : Machine
unfolding memory
machine =
    let empty : Store = record { rows = λ t k. none; keys = λ t. [] } in
    record {
      system = system;
      zap = record {
        Level = Unit {0};
        unmarshal_text = λ t. ok tt;
        dir = λ p. lit "/x";
        mkdir_all = λ p. none;
      };
      driver = record {
        directory_made = none;
        opened = none;
        foreign_keys_set = none;
        busy_timeout_set = none;
        dialect_set = none;
        migrations_applied = none;
        closed = none;
      };
      sql = memory;
      db = empty;
      ring = pocket;
      keys = λ s u. err (lit "not found");
      refused = none;
      now = 9;
    }

abbrev opts : Options
opts = record { config_path = []; log_level = []; socket_path = lit "/tmp/s" }

-- the same, where fsnotify finds no room for another watcher
abbrev crowded : Machine
crowded = record machine { refused = some (lit "too many open files") }

initialize_daemon-Ended_example :
    Started crowded opts (initialize_daemon crowded opts)
    ⊎ Refused crowded opts (initialize_daemon crowded opts)
    ⊎ Leaked crowded opts (initialize_daemon crowded opts)
unfolding machine
initialize_daemon-Ended_example = initialize_daemon-Ended crowded opts (λ p q ps h. refl)

left_open_test : (initialize_daemon crowded opts).0.handle.is_open ≡ true
unfolding machine initialize_daemon new_config_with_options new_config dir_or defaults from_file
    apply_config_file apply_file apply_env override_int split_list atoi str_eq sink_of new_logger
    new_storage migrate missing_part new_watcher
left_open_test = refl

abbrev cfg : Config
cfg = record (defaults system (lit "/home/u/.config") (lit "/x") (lit "/x")) {
  socket_path = lit "/tmp/s";
}

abbrev wired : Wired machine
unfolding machine
wired = record {
  logger = record {
    encoding = record { time_key = lit "ts"; iso8601 = true; json = true };
    sink = file_sink machine.zap cfg;
    level = tt;
  };
  config = cfg;
  storage = (new_storage machine.driver).0;
  auth = auth_state machine cfg;
  status = new_status_store cfg 9;
  sync =
      new_engine (some (new_storage machine.driver).0) (some (new_status_store cfg 9))
        (some (new_sync_queue cfg));
  watcher = record { status = new_status_store cfg 9; out = []; pending = []; watched = [] };
  server =
      new_server cfg (new_status_store cfg 9) (some (shown_state machine (auth_state machine cfg)));
  queue = new_sync_queue cfg;
}

abbrev actions : List Action
actions =
    watches (
      Watcher.Input.raw_event
        (record { name = lit "/r/a"; op = masks.write_bit; now = 0; is_dir = false; entry = none }))
    ∷ watches (Watcher.Input.ticks (λ i. i + debounce) (lit "/r/a" ∷ []))
    ∷ forwarder_receives
    ∷ engine_ticks 5 6
    ∷ []

flushed_test :
    flushed_by_all fp masks cfg accepts actions (pipe_of machine wired)
    ≡ record { path = lit "/r/a"; op = write; when = debounce } ∷ []
unfolding wired act handle_event flush_pending Watcher.collect get put delete str_eq should_ignore
    Watcher.run base any has_suffix normalize_op defaults
flushed_test = refl

wired_burst_example :
    contents (act_all fp masks cfg accepts actions (pipe_of machine wired))
    ≡ flushed_by_all fp masks cfg accepts actions (pipe_of machine wired)
unfolding machine wired initialize_daemon new_config_with_options new_config dir_or defaults
    from_file apply_config_file apply_file apply_env override_int split_list atoi str_eq sink_of
    new_logger new_storage migrate missing_part new_watcher Watcher.collect get delete put
    handle_event flush_pending should_ignore act Watcher.run base any has_suffix normalize_op
wired_burst_example =
    wired_burst machine opts (λ p q ps h. refl) fp masks accepts actions wired 1024 refl refl
      (omega arith) (omega arith)
