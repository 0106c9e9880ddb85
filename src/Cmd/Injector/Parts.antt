-- ===== src/Cmd/Injector/Parts.antt =====
-- What `InitializeDaemon` of cmd/googlysync/wire_gen.go returns, and what it leaves open.
use googlysync.Prelude.{
  true, false, ◌≡◌, ◌⊎◌, inl, inr, refl, none, some, Option, [], Str, is_empty, pos, Result,
  Result-cases, ok, ok_injective, err, sym, subst, ◌∙◌,
}
use googlysync.Config.{Config, Options, new_config_with_options}
use googlysync.Config.Named.{JoinsFilled, resolve-IsNamed}
use googlysync.Logging.{Logger, new_logger}
use googlysync.Logging.Sinks.{file_sink, new_logger-file_sink}
use googlysync.Storage.Accounts.{Account}
use googlysync.Storage.Opening.{Handle, new_storage}
use googlysync.Storage.Opening.Opened.{IsReady, new_storage-IsReady}
use googlysync.Auth
use googlysync.Auth.{signed_out}
use googlysync.Auth.Active.{find_active_account}
use googlysync.Auth.Service.{missing_part, new_service}
use googlysync.Fswatch.Watcher.{new_watcher}
use googlysync.Sync.Queue.{new_queue}
use googlysync.Sync.Engine.{new_engine}
use googlysync.Ipc.{new_server}
use googlysync.Cmd.Wiring.{new_status_store, new_sync_queue, wired_sizes}
use googlysync.Cmd.Injector.{
  Machine, Left, Wired, with_watcher, with_storage, initialize_daemon, auth_state, shown_state,
}

-- The service begins with the active account of the database signed in, or with nobody.
abbrev pub Begins : Option Account → Auth.State → Type 0
Begins none s = s ≡ signed_out
Begins (some a) s = s ≡ record { signed_in = true; account = a }

module _ (m : Machine) (opts : Options) where
  pub record IsWired (d : Wired m) : Type 0 where
    pub config : new_config_with_options m.system opts ≡ ok d.config
    pub storage : IsReady d.storage
    pub sink : d.logger.sink ≡ file_sink m.zap d.config
    pub events : pos d.status.max_events ≡ d.config.event_log_size
    pub queue : pos d.queue.capacity ≡ d.config.sync_queue_size
    pub no_events : (d.queue.waiting ≡ []) × (d.watcher.out ≡ []) × (d.watcher.pending ≡ [])
    pub socket : is_empty d.server.socket_path ≡ false
    pub auth : Begins (find_active_account m.sql m.db) d.auth
    pub shown : d.server.auth ≡ some (shown_state m d.auth)
    pub shared : (d.watcher.status ≡ d.status) × (d.server.status ≡ d.status)
    pub sync : d.sync ≡ new_engine (some d.storage) (some d.status) (some d.queue)

  -- every part is there, and the database and fsnotify are open
  abbrev pub Started : Left × Result (Wired m) → Type 0
  Started x =
      (d : Wired m) × (x.1 ≡ ok d)
      × (x.0 ≡ record { handle = d.storage; notifying = true })
      × IsWired d

  -- an error, with nothing left open
  abbrev pub Refused : Left × Result (Wired m) → Type 0
  Refused x = (e : Str) × (x.1 ≡ err e) × (x.0.handle.is_open ≡ false) × (x.0.notifying ≡ false)

  -- the error of fsnotify, with the database left open
  abbrev pub Leaked : Left × Result (Wired m) → Type 0
  Leaked x =
      (e : Str) × (m.refused ≡ some e)
      × (x.1 ≡ err e)
      × IsReady x.0.handle
      × (x.0.notifying ≡ false)

  abbrev Ended : Left × Result (Wired m) → Type 0
  Ended x = Started x ⊎ Refused x ⊎ Leaked x

  auth_state-Begins : (cfg : Config) → Begins (find_active_account m.sql m.db) (auth_state m cfg)
  unfolding new_service
  auth_state-Begins cfg = found (find_active_account m.sql m.db)
    where
      found :
          (o : Option Account)
          → Begins o
              (elim o [ none ↦ signed_out | some a ↦ record { signed_in = true; account = a } ])
      found none = refl
      found (some a) = refl

  module _ (filled : JoinsFilled m.system) where
    with_watcher-Ended :
        (cfg : Config) (logger : Logger m.zap) (h : Handle)
        → new_config_with_options m.system opts ≡ ok cfg
        → new_logger m.zap cfg ≡ ok logger
        → IsReady h
        → (o : Option Str) → m.refused ≡ o
        → Ended (with_watcher m cfg logger h (new_watcher o (new_status_store cfg m.now)))
    unfolding new_watcher new_server new_sync_queue new_queue
    with_watcher-Ended cfg logger h c l r (some e) f = inr (inr (e, f, refl, r, refl))
    with_watcher-Ended cfg logger h c l r none f =
        let named = resolve-IsNamed m.system opts filled cfg c in
        let (events, queue) = wired_sizes m.system opts cfg m.now c in
        inl (
          _,
          refl,
          refl,
          record {
            config = c;
            storage = r;
            sink = new_logger-file_sink m.zap cfg logger named.log_file_path l;
            events = events;
            queue = queue;
            no_events = (refl, refl, refl);
            socket = named.socket_path;
            auth = auth_state-Begins cfg;
            shown = refl;
            shared = (refl, refl);
            sync = refl;
          },
        )

    with_storage-Ended :
        (cfg : Config) (logger : Logger m.zap)
        → new_config_with_options m.system opts ≡ ok cfg
        → new_logger m.zap cfg ≡ ok logger
        → Ended (with_storage m cfg logger (new_storage m.driver))
    unfolding missing_part
    with_storage-Ended cfg logger c l = elim (new_storage-IsReady m.driver) [
      | inl (done, made, r) ↦ rw made (with_watcher-Ended cfg logger _ c l r m.refused refl)
      | inr (not_done, (e, failed), shut) ↦ rw failed (inr (inl (e, refl, shut, refl)))
    ]

    -- Where `filepath.Join` does not lose names, `InitializeDaemon` ends in one of three ways. It returns
    -- a daemon all of whose parts are there: its configuration is the resolved one, the database is
    -- ready, the logger writes to the configured file, the sizes of the status store and of the queue
    -- are the configured ones, the server has a socket, engine, watcher and server share the status store, no
    -- event waits, and the account that is signed in, and that the server shows, is the one found active. Or it returns an error and nothing is open. Or fsnotify has refused a
    -- watcher, and its error is returned while the database stays open.
    pub initialize_daemon-Ended :
        Started (initialize_daemon m opts)
        ⊎ Refused (initialize_daemon m opts)
        ⊎ Leaked (initialize_daemon m opts)
    unfolding initialize_daemon
    initialize_daemon-Ended = elim (Result-cases (new_config_with_options m.system opts)) [
      | inr (e, c) ↦ rw c (inr (inl (e, refl, refl, refl)))
      | inl (cfg, c) ↦ elim (Result-cases (new_logger m.zap cfg)) [
        | inr (e, l) ↦ rw (c, l) (inr (inl (e, refl, refl, refl)))
        | inl (logger, l) ↦ rw (c, l) (with_storage-Ended cfg logger c l)
      ]
    ]

    pub initialize_daemon-IsWired : (d : Wired m) → (initialize_daemon m opts).1 ≡ ok d → IsWired d
    initialize_daemon-IsWired d h = elim initialize_daemon-Ended [
      | inl (d', e, open_parts, w) ↦ subst IsWired (ok_injective (sym e ∙ h)) w
      | inr (inl (e, f, shut, quiet)) ↦ cc
      | inr (inr (e, f, g, open_left, quiet)) ↦ cc
    ]
