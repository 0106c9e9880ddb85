-- ===== src/Config.antt =====
-- internal/config/config.go: the configuration, resolved from defaults, a file, the environment and
-- the command line. The environment, the directories of the operating system, the reading of a
-- file, the decoding of its JSON and `filepath.Join` are what a `System` gives.
pub mod Lists
pub mod Ints
pub mod Resolve
pub mod Named
pub mod Pieces
mod Examples
use Lists.{split_list}
use Ints.{atoi}
use googlysync.Prelude.{
  ℕ, Bool, Option, none, some, List, [], ◌∷◌, ◌||◌, if◌then◌else◌, ℤ, pos, is_pos, Str, lit,
  is_empty, Result, ok, err, ◌>>=◌,
}

pub record Config : Type 0 where
  pub app_name : Str
  pub config_dir : Str
  pub data_dir : Str
  pub runtime_dir : Str
  pub socket_path : Str
  pub sync_root : Str
  pub ignore_patterns : List Str
  pub event_log_size : ℤ
  pub sync_queue_size : ℤ
  pub log_level : Str
  pub database_path : Str
  pub config_file : Str
  pub log_file_path : Str
  pub log_file_max_mb : ℤ
  pub log_file_max_backups : ℤ
  pub log_file_max_age_days : ℤ
  pub oauth_client_id : Str
  pub oauth_client_secret : Str
  pub oauth_redirect_host : Str

-- The fields of the JSON file; one that the file leaves out is zero.
pub record FileConfig : Type 0 where
  pub app_name : Str
  pub config_dir : Str
  pub data_dir : Str
  pub runtime_dir : Str
  pub socket_path : Str
  pub sync_root : Str
  pub ignore_patterns : List Str
  pub event_log_size : ℤ
  pub sync_queue_size : ℤ
  pub log_level : Str
  pub database_path : Str
  pub log_file_path : Str
  pub log_file_max_mb : ℤ
  pub log_file_max_backups : ℤ
  pub log_file_max_age_days : ℤ
  pub oauth_client_id : Str
  pub oauth_client_secret : Str
  pub oauth_redirect_host : Str

pub record Options : Type 0 where
  pub config_path : Str
  pub log_level : Str
  pub socket_path : Str

-- What the code asks of the operating system and of the standard library.
pub record System : Type 0 where
  pub getenv : Str → Str
  pub user_config_dir : Result Str
  pub user_home_dir : Result Str
  pub join : List Str → Str
  pub read_file : Str → Result Str
  pub decode : Str → Result FileConfig

abbrev pub app_dir_name : Str
app_dir_name = lit "drive-client"

-- `if v != "" { field = v }`
abbrev pub override : Str → Str → Str
override v old = if is_empty v then old else v

-- `if n > 0 { field = n }`
abbrev pub override_pos : ℤ → ℤ → ℤ
override_pos n old = if is_pos n then n else old

-- `if len(l) > 0 { field = l }`
abbrev pub override_list : List Str → List Str → List Str
override_list [] old = old
override_list (p ∷ ps) old = p ∷ ps

abbrev parsed : Option ℤ → ℤ → ℤ
parsed none old = old
parsed (some i) old = override_pos i old

-- `if v != "" { if i, err := strconv.Atoi(v); err == nil && i > 0 { field = i } }`
unfoldable pub override_int : Str → ℤ → ℤ
override_int v old = if is_empty v then old else parsed (atoi v) old

-- A directory from the environment, or below the one that the system gives.
unfoldable pub dir_or : Str → Result Str → (Str → Str) → Result Str
dir_or v fallback below = if is_empty v then (do d ← fallback; ok (below d)) else ok v

-- The fields that the file gives.
unfoldable pub apply_file : FileConfig → Config → Config
apply_file fc cfg = record cfg {
  app_name = override fc.app_name cfg.app_name;
  config_dir = override fc.config_dir cfg.config_dir;
  data_dir = override fc.data_dir cfg.data_dir;
  runtime_dir = override fc.runtime_dir cfg.runtime_dir;
  socket_path = override fc.socket_path cfg.socket_path;
  sync_root = override fc.sync_root cfg.sync_root;
  ignore_patterns = override_list fc.ignore_patterns cfg.ignore_patterns;
  event_log_size = override_pos fc.event_log_size cfg.event_log_size;
  sync_queue_size = override_pos fc.sync_queue_size cfg.sync_queue_size;
  log_level = override fc.log_level cfg.log_level;
  database_path = override fc.database_path cfg.database_path;
  log_file_path = override fc.log_file_path cfg.log_file_path;
  log_file_max_mb = override_pos fc.log_file_max_mb cfg.log_file_max_mb;
  log_file_max_backups = override_pos fc.log_file_max_backups cfg.log_file_max_backups;
  log_file_max_age_days = override_pos fc.log_file_max_age_days cfg.log_file_max_age_days;
  oauth_client_id = override fc.oauth_client_id cfg.oauth_client_id;
  oauth_client_secret = override fc.oauth_client_secret cfg.oauth_client_secret;
  oauth_redirect_host = override fc.oauth_redirect_host cfg.oauth_redirect_host;
}

module _ (sys : System) where
  unfoldable pub defaults : Str → Str → Str → Config
  defaults config_home data_home runtime_dir =
      let data_dir = sys.join (data_home ∷ app_dir_name ∷ []) in
      record {
        app_name = lit "googlysync";
        config_dir = sys.join (config_home ∷ app_dir_name ∷ []);
        data_dir = data_dir;
        runtime_dir = runtime_dir;
        socket_path = sys.join (runtime_dir ∷ lit "googlysync" ∷ lit "daemon.sock" ∷ []);
        sync_root = sys.join (data_dir ∷ lit "sync" ∷ []);
        ignore_patterns = lit "*.swp" ∷ lit "*.tmp" ∷ lit "*~" ∷ lit ".DS_Store" ∷ [];
        event_log_size = pos 20;
        sync_queue_size = pos 1024;
        log_level = lit "info";
        database_path = sys.join (data_dir ∷ lit "googlysync.db" ∷ []);
        config_file = [];
        log_file_path = sys.join (data_dir ∷ lit "logs" ∷ lit "daemon.jsonl" ∷ []);
        log_file_max_mb = pos 10;
        log_file_max_backups = pos 5;
        log_file_max_age_days = pos 7;
        oauth_client_id = [];
        oauth_client_secret = [];
        oauth_redirect_host = lit "127.0.0.1";
      }

  unfoldable pub new_config : Result Config
  unfolding dir_or
  new_config = do
    config_home ← dir_or (sys.getenv (lit "XDG_CONFIG_HOME")) sys.user_config_dir (λ d. d)
    data_home ←
        dir_or (sys.getenv (lit "XDG_DATA_HOME")) sys.user_home_dir
          (λ home. sys.join (home ∷ lit ".local" ∷ lit "share" ∷ []))
    runtime_dir ←
        dir_or (sys.getenv (lit "XDG_RUNTIME_DIR")) sys.user_home_dir
          (λ home. sys.join (home ∷ lit ".cache" ∷ []))
    if is_empty config_home || is_empty data_home
        then err (lit "unable to resolve XDG directories")
        else ok (defaults config_home data_home runtime_dir)

  unfoldable pub apply_config_file : Config → Str → Result Config
  apply_config_file cfg path = do
    text ← sys.read_file path
    fc ← sys.decode text
    ok (apply_file fc cfg)

  unfoldable pub apply_env : Config → Config
  apply_env cfg =
      let ignore = sys.getenv (lit "GOOGLYSYNC_IGNORE_PATTERNS") in
      record cfg {
        log_level = override (sys.getenv (lit "GOOGLYSYNC_LOG_LEVEL")) cfg.log_level;
        log_file_path = override (sys.getenv (lit "GOOGLYSYNC_LOG_FILE")) cfg.log_file_path;
        log_file_max_mb =
            override_int (sys.getenv (lit "GOOGLYSYNC_LOG_MAX_MB")) cfg.log_file_max_mb;
        log_file_max_backups =
            override_int (sys.getenv (lit "GOOGLYSYNC_LOG_MAX_BACKUPS")) cfg.log_file_max_backups;
        log_file_max_age_days =
            override_int (sys.getenv (lit "GOOGLYSYNC_LOG_MAX_AGE_DAYS")) cfg.log_file_max_age_days;
        socket_path = override (sys.getenv (lit "GOOGLYSYNC_SOCKET_PATH")) cfg.socket_path;
        sync_root = override (sys.getenv (lit "GOOGLYSYNC_SYNC_ROOT")) cfg.sync_root;
        ignore_patterns = if is_empty ignore then cfg.ignore_patterns else split_list ignore;
        event_log_size =
            override_int (sys.getenv (lit "GOOGLYSYNC_EVENT_LOG_SIZE")) cfg.event_log_size;
        sync_queue_size =
            override_int (sys.getenv (lit "GOOGLYSYNC_SYNC_QUEUE_SIZE")) cfg.sync_queue_size;
        oauth_client_id =
            override (sys.getenv (lit "GOOGLYSYNC_OAUTH_CLIENT_ID")) cfg.oauth_client_id;
        oauth_client_secret =
            override (sys.getenv (lit "GOOGLYSYNC_OAUTH_CLIENT_SECRET")) cfg.oauth_client_secret;
        oauth_redirect_host =
            override (sys.getenv (lit "GOOGLYSYNC_OAUTH_REDIRECT_HOST")) cfg.oauth_redirect_host;
      }

  unfoldable pub from_file : Str → Config → Result Config
  from_file path cfg =
      if is_empty path
      then ok cfg
      else do cfg' ← apply_config_file cfg path; ok (record cfg' { config_file = path })

  unfoldable pub new_config_with_options : Options → Result Config
  new_config_with_options opts = do
    base ← new_config
    filed ← from_file opts.config_path base
    let cfg = apply_env filed
    ok (record cfg {
      log_level = override opts.log_level cfg.log_level;
      socket_path = override opts.socket_path cfg.socket_path;
    })
