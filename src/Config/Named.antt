-- ===== src/Config/Named.antt =====
-- The paths of a configuration that `NewConfigWithOptions` of internal/config/config.go returns.
use googlysync.Prelude.{
  false, ◌≡◌, refl, sym, ◌∙◌, List, ◌∷◌, Str, lit, is_empty, ok, Ensures, ◌>>=◌, arith,
  Ensures-bind, Ensures-ok, ensures_rules,
}
use googlysync.Config.{
  Config, FileConfig, Options, System, defaults, new_config, new_config_with_options,
}
use googlysync.Config.Resolve.{settled, file_settings, resolve-eq-settled}

pub record IsNamed (cfg : Config) : Type 0 where
  pub app_name : is_empty cfg.app_name ≡ false
  pub socket_path : is_empty cfg.socket_path ≡ false
  pub sync_root : is_empty cfg.sync_root ≡ false
  pub log_level : is_empty cfg.log_level ≡ false
  pub database_path : is_empty cfg.database_path ≡ false
  pub log_file_path : is_empty cfg.log_file_path ≡ false

-- `filepath.Join`: the result is not empty where an element, such as the second, is not.
abbrev pub JoinsFilled : System → Type 0
JoinsFilled sys =
    (p q : Str) (ps : List Str) → is_empty q ≡ false → is_empty (sys.join (p ∷ q ∷ ps)) ≡ false

module _ (sys : System) (opts : Options) (filled : JoinsFilled sys) where
  defaults-IsNamed : (c d r : Str) → IsNamed (defaults sys c d r)
  unfolding defaults
  defaults-IsNamed c d r = record {
    app_name = refl;
    socket_path = filled _ (lit "googlysync") _ refl;
    sync_root = filled _ (lit "sync") _ refl;
    log_level = refl;
    database_path = filled _ (lit "googlysync.db") _ refl;
    log_file_path = filled _ (lit "logs") _ refl;
  }

  settled-IsNamed :
      (fc : FileConfig) (base : Config) → IsNamed base → IsNamed (settled sys opts fc base)
  settled-IsNamed fc base u = record {
    app_name = ground arith;
    socket_path = ground arith;
    sync_root = ground arith;
    log_level = ground arith;
    database_path = ground arith;
    log_file_path = ground arith;
  }

  new_config-IsNamed : Ensures IsNamed (new_config sys)
  unfolding new_config
  new_config-IsNamed = search (ensures_rules, defaults-IsNamed) depth 12

  -- Whatever the file, the environment and the command line hold, a configuration that is resolved
  -- names its application, socket, sync root, log level, database and log file.
  pub resolve-IsNamed : (cfg : Config) → new_config_with_options sys opts ≡ ok cfg → IsNamed cfg
  resolve-IsNamed cfg h = ruled.at cfg (sym (resolve-eq-settled sys opts) ∙ h)
    where
      ruled :
          Ensures IsNamed
            (do base ← new_config sys; fc ← file_settings sys opts; ok (settled sys opts fc base))
      ruled = Ensures-bind (new_config sys) _ λ base e.
          Ensures-bind (file_settings sys opts) _
            λ fc _. Ensures-ok _ (settled-IsNamed fc base (new_config-IsNamed.at base e))
