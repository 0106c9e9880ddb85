-- ===== src/Logging/Sinks.antt =====
-- Where the logger of internal/logging/logging.go writes.
use googlysync.Prelude.{
  true, false, ◌≡◌, sym, ap, subst, ◌∙◌, none, some, is_empty, Option, if◌then◌else◌, ok,
  ok_injective, first_step, Str,
}
use googlysync.Config.{Config}
use googlysync.Logging.{Tools, Logger, Sink, rolling, stdout, after_mkdir, sink_of, new_logger}

module _ (tools : Tools) where
  open tools use {Level, dir, mkdir_all}

  -- the file of a configuration, with its limits, compressed when it is turned over
  abbrev pub file_sink : Config → Sink
  file_sink cfg =
      rolling cfg.log_file_path cfg.log_file_max_mb cfg.log_file_max_backups
        cfg.log_file_max_age_days true

  after_mkdir-file_sink :
      (cfg : Config) (s : Sink) (o : Option Str)
      → after_mkdir tools cfg o ≡ ok s
      → s ≡ file_sink cfg
  after_mkdir-file_sink cfg s none h = sym (ok_injective h)
  after_mkdir-file_sink cfg s (some e) h = cc

  sink_of-file_sink :
      (cfg : Config) (s : Sink)
      → is_empty cfg.log_file_path ≡ false
      → sink_of tools cfg ≡ ok s
      → s ≡ file_sink cfg
  unfolding sink_of
  sink_of-file_sink cfg s f h =
      let made = after_mkdir tools cfg (mkdir_all (dir cfg.log_file_path)) in
      after_mkdir-file_sink cfg s _ (subst (λ b. (if b then ok stdout else made) ≡ ok s) f h)

  -- A logger of a configuration that names a log file writes to that file, whose directory is made.
  pub new_logger-file_sink :
      (cfg : Config) (l : Logger tools)
      → is_empty cfg.log_file_path ≡ false
      → new_logger tools cfg ≡ ok l
      → l.sink ≡ file_sink cfg
  unfolding new_logger
  new_logger-file_sink cfg l f h =
      let (level, e, g) = first_step (tools.unmarshal_text cfg.log_level) h in
      let (sink, i, k) = first_step (sink_of tools cfg) g in
      sym (ap (λ x. x.sink) (ok_injective k)) ∙ sink_of-file_sink cfg sink f i
