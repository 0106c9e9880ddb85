-- ===== src/Logging.antt =====
-- internal/logging/logging.go: `NewLogger`. Levels are zap's, and so is the reading of their names;
-- the directory of a path and what making it returns are given. Log lines are not modelled.
pub mod Sinks
use googlysync.Prelude.{
  ℤ, Bool, true, Option, none, some, if◌then◌else◌, Str, lit, is_empty, Result, ok, err, ◌>>=◌,
}
use googlysync.Config.{Config}

-- where the log lines go: a file that lumberjack turns over, or the standard output
pub data Sink : Type 0 where
  rolling : Str → ℤ → ℤ → ℤ → Bool → Sink
  stdout : Sink

-- the keys and the formats that `encoderCfg` sets
pub record Encoding : Type 0 where
  pub time_key : Str
  pub iso8601 : Bool
  pub json : Bool

-- What `NewLogger` calls: `UnmarshalText` of a level, `filepath.Dir`, and `os.MkdirAll`.
pub record Tools : Type 1 where
  pub Level : Type 0
  pub unmarshal_text : Str → Result Level
  pub dir : Str → Str
  pub mkdir_all : Str → Option Str

module _ (tools : Tools) where
  open tools use {Level, unmarshal_text, dir, mkdir_all}

  pub record Logger : Type 0 where
    pub encoding : Encoding
    pub sink : Sink
    pub level : Level

  abbrev pub after_mkdir : Config → Option Str → Result Sink
  after_mkdir cfg (some e) = err e
  after_mkdir cfg none = ok (
      rolling cfg.log_file_path cfg.log_file_max_mb cfg.log_file_max_backups
        cfg.log_file_max_age_days true)

  -- `ws`: the directory is made only for a file.
  unfoldable pub sink_of : Config → Result Sink
  sink_of cfg =
      if is_empty cfg.log_file_path
      then ok stdout
      else after_mkdir cfg (mkdir_all (dir cfg.log_file_path))

  unfoldable pub new_logger : Config → Result Logger
  unfolding sink_of
  new_logger cfg = do
    level ← unmarshal_text cfg.log_level
    sink ← sink_of cfg
    ok (record {
      encoding = record { time_key = lit "ts"; iso8601 = true; json = true };
      sink = sink;
      level = level;
    })
