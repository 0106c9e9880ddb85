-- ===== src/Config/Resolve.antt =====
-- Where each setting of internal/config/config.go comes from.
use googlysync.Prelude.{
  true, ◌≡◌, refl, List, [], ◌∷◌, arith, if◌then◌else◌, ℤ, pos, is_pos, Str, lit, is_empty, Result,
  ok, ◌>>=◌, none, some, Bool-cases, inl, inr, Option-cases, Result-cases, Ensures, Ensures-ok,
  Ensures-bind, ensures_rules, sym, ◌∙◌,
}
use googlysync.Config.{
  defaults, from_file, override_list, Config, FileConfig, Options, System, override, override_int,
  new_config, apply_file, apply_config_file, apply_env, new_config_with_options,
}
use googlysync.Config.Ints.{atoi, atoi-nil}
use googlysync.Config.Lists.{split_list}

-- Every size and limit of a configuration is positive.
pub record IsUsable (cfg : Config) : Type 0 where
  pub event_log_size : is_pos cfg.event_log_size ≡ true
  pub sync_queue_size : is_pos cfg.sync_queue_size ≡ true
  pub log_file_max_mb : is_pos cfg.log_file_max_mb ≡ true
  pub log_file_max_backups : is_pos cfg.log_file_max_backups ≡ true
  pub log_file_max_age_days : is_pos cfg.log_file_max_age_days ≡ true

-- the first text that is not empty, or the default
abbrev pub first_text : List Str → Str → Str
first_text [] d = d
first_text (v ∷ vs) d = if is_empty v then first_text vs d else v

-- the first number that is positive, or the default
abbrev pub first_pos : List ℤ → ℤ → ℤ
first_pos [] d = d
first_pos (n ∷ ns) d = if is_pos n then n else first_pos ns d

-- the number that a text writes, or 0
abbrev pub int_of : Str → ℤ
int_of v = elim (atoi v) [ none ↦ pos 0 | some n ↦ n ]

-- a file that sets nothing
abbrev pub empty_file : FileConfig
empty_file = record {
  app_name = [];
  config_dir = [];
  data_dir = [];
  runtime_dir = [];
  socket_path = [];
  sync_root = [];
  ignore_patterns = [];
  event_log_size = pos 0;
  sync_queue_size = pos 0;
  log_level = [];
  database_path = [];
  log_file_path = [];
  log_file_max_mb = pos 0;
  log_file_max_backups = pos 0;
  log_file_max_age_days = pos 0;
  oauth_client_id = [];
  oauth_client_secret = [];
  oauth_redirect_host = [];
}

-- the settings of the file that the command line names, if it names one
abbrev pub file_settings : System → Options → Result FileConfig
file_settings sys opts =
    if is_empty opts.config_path
    then ok empty_file
    else do text ← sys.read_file opts.config_path; sys.decode text

-- Each setting on its own: the command line before the environment, the environment before the
-- file, the file before the default.
abbrev pub settled : System → Options → FileConfig → Config → Config
settled sys opts fc base =
    let env = sys.getenv in
    let ignored = env (lit "GOOGLYSYNC_IGNORE_PATTERNS") in
    record {
      app_name = first_text (fc.app_name ∷ []) base.app_name;
      config_dir = first_text (fc.config_dir ∷ []) base.config_dir;
      data_dir = first_text (fc.data_dir ∷ []) base.data_dir;
      runtime_dir = first_text (fc.runtime_dir ∷ []) base.runtime_dir;
      socket_path =
          first_text (opts.socket_path ∷ env (lit "GOOGLYSYNC_SOCKET_PATH") ∷ fc.socket_path ∷ [])
            base.socket_path;
      sync_root = first_text (env (lit "GOOGLYSYNC_SYNC_ROOT") ∷ fc.sync_root ∷ []) base.sync_root;
      ignore_patterns =
          if is_empty ignored
          then override_list fc.ignore_patterns base.ignore_patterns
          else split_list ignored;
      event_log_size =
          first_pos (int_of (env (lit "GOOGLYSYNC_EVENT_LOG_SIZE")) ∷ fc.event_log_size ∷ [])
            base.event_log_size;
      sync_queue_size =
          first_pos (int_of (env (lit "GOOGLYSYNC_SYNC_QUEUE_SIZE")) ∷ fc.sync_queue_size ∷ [])
            base.sync_queue_size;
      log_level =
          first_text (opts.log_level ∷ env (lit "GOOGLYSYNC_LOG_LEVEL") ∷ fc.log_level ∷ [])
            base.log_level;
      database_path = first_text (fc.database_path ∷ []) base.database_path;
      config_file = first_text (opts.config_path ∷ []) base.config_file;
      log_file_path =
          first_text (env (lit "GOOGLYSYNC_LOG_FILE") ∷ fc.log_file_path ∷ []) base.log_file_path;
      log_file_max_mb =
          first_pos (int_of (env (lit "GOOGLYSYNC_LOG_MAX_MB")) ∷ fc.log_file_max_mb ∷ [])
            base.log_file_max_mb;
      log_file_max_backups =
          first_pos (int_of (env (lit "GOOGLYSYNC_LOG_MAX_BACKUPS")) ∷ fc.log_file_max_backups ∷ [])
            base.log_file_max_backups;
      log_file_max_age_days =
          first_pos
            (int_of (env (lit "GOOGLYSYNC_LOG_MAX_AGE_DAYS")) ∷ fc.log_file_max_age_days ∷ [])
            base.log_file_max_age_days;
      oauth_client_id =
          first_text (env (lit "GOOGLYSYNC_OAUTH_CLIENT_ID") ∷ fc.oauth_client_id ∷ [])
            base.oauth_client_id;
      oauth_client_secret =
          first_text (env (lit "GOOGLYSYNC_OAUTH_CLIENT_SECRET") ∷ fc.oauth_client_secret ∷ [])
            base.oauth_client_secret;
      oauth_redirect_host =
          first_text (env (lit "GOOGLYSYNC_OAUTH_REDIRECT_HOST") ∷ fc.oauth_redirect_host ∷ [])
            base.oauth_redirect_host;
    }

override_int-eq-first_pos : (v : Str) (old : ℤ) → override_int v old ≡ first_pos (int_of v ∷ []) old
unfolding override_int
override_int-eq-first_pos [] old = rw (atoi-nil, int_of) refl
override_int-eq-first_pos (c ∷ v) old = elim (Option-cases (atoi (c ∷ v))) [
  | inl e ↦ rw (e, int_of) refl
  | inr (n, e) ↦ rw (e, int_of) refl
]

from_file-settled :
    (sys : System) (opts : Options) (base : Config)
    → (do
      filed ← from_file sys opts.config_path base
      let cfg = apply_env sys filed
      ok (record cfg {
        log_level = override opts.log_level cfg.log_level;
        socket_path = override opts.socket_path cfg.socket_path;
      }))
      ≡ (do fc ← file_settings sys opts; ok (settled sys opts fc base))
unfolding from_file apply_config_file apply_env apply_file
from_file-settled sys opts base = elim (Bool-cases (is_empty opts.config_path)) [
  | inl e ↦ rw e (simp override_int-eq-first_pos)
  | inr e ↦ elim (Result-cases (sys.read_file opts.config_path)) [
    | inr (x, r) ↦ rw (e, r) refl
    | inl (text, r) ↦ elim (Result-cases (sys.decode text)) [
      | inr (x, d) ↦ rw (e, r, d) refl
      | inl (fc, d) ↦ rw (e, r, d) (simp override_int-eq-first_pos)
    ]
  ]
]

-- Resolving the configuration is taking the defaults and the settings of the file, failing where
-- these fail and in that order, and then settling each field on its own: the command line comes
-- before the environment, the environment before the file, the file before the default, a text
-- counts where it is not empty, and a number where it is positive.
pub resolve-eq-settled :
    (sys : System) (opts : Options)
    → new_config_with_options sys opts
      ≡ (do base ← new_config sys; fc ← file_settings sys opts; ok (settled sys opts fc base))
unfolding new_config_with_options
resolve-eq-settled sys opts = elim (Result-cases (new_config sys)) [
  | inl (base, e) ↦ rw e (from_file-settled sys opts base)
  | inr (x, e) ↦ rw e refl
]

defaults-IsUsable : (sys : System) (c d r : Str) → IsUsable (defaults sys c d r)
unfolding defaults
defaults-IsUsable sys c d r = record {
  event_log_size = refl;
  sync_queue_size = refl;
  log_file_max_mb = refl;
  log_file_max_backups = refl;
  log_file_max_age_days = refl;
}

module _ (sys : System) (opts : Options) where
  settled-IsUsable :
      (fc : FileConfig) (base : Config) → IsUsable base → IsUsable (settled sys opts fc base)
  settled-IsUsable fc base u = record {
    event_log_size = ground arith;
    sync_queue_size = ground arith;
    log_file_max_mb = ground arith;
    log_file_max_backups = ground arith;
    log_file_max_age_days = ground arith;
  }

  new_config-IsUsable : Ensures IsUsable (new_config sys)
  unfolding new_config
  new_config-IsUsable = search (ensures_rules, defaults-IsUsable) depth 12

  -- Whatever the file and the environment hold, a configuration that is resolved has an event log
  -- size, a queue size and log file limits that are positive.
  pub resolve-IsUsable : (cfg : Config) → new_config_with_options sys opts ≡ ok cfg → IsUsable cfg
  resolve-IsUsable cfg h = ruled.at cfg (sym (resolve-eq-settled sys opts) ∙ h)
    where
      ruled :
          Ensures IsUsable
            (do base ← new_config sys; fc ← file_settings sys opts; ok (settled sys opts fc base))
      ruled = Ensures-bind (new_config sys) _ λ base e.
          Ensures-bind (file_settings sys opts) _
            λ fc _. Ensures-ok _ (settled-IsUsable fc base (new_config-IsUsable.at base e))
