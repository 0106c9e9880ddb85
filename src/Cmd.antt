-- ===== src/Cmd.antt =====
-- cmd/googlysync/main.go: the commands, what they print and the code that the program exits with.
-- Parsing of flags, the calls to the daemon and the status view's runtime are parameters.
pub mod Wiring
pub mod Codes
pub mod Injector
mod Examples
use googlysync.Prelude.{
  ℕ, ◌≡◌, Bool, true, false, ◌⊎◌, inl, inr, Option, none, some, List, [], ◌∷◌, ◌++◌, if◌then◌else◌,
  Str, lit, str_eq, Result, ok, err,
}
use googlysync.Config.{Config, Options, System, new_config_with_options}
use googlysync.Ipc.{Protobuf, StatusReply, ProtoStatus}
use googlysync.Tui.{Model, new_model}
use googlysync.Tui.Answer.{state_name}

-- what a run has written to its two outputs, and its exit code
pub record Ran : Type 0 where
  pub out : List Str
  pub complaints : List Str
  pub code : ℕ

abbrev pub prints : List Str → Ran
prints out = record { out = out; complaints = []; code = 0 }

-- `os.Exit`, after a line to the standard error
abbrev pub fails : Str → Ran
fails message = record { out = []; complaints = message ∷ []; code = 1 }

-- `fs.Parse` under `flag.ExitOnError`: the flags' values, or the run that it ends
abbrev pub Parsed : Type 0 → Type 0
Parsed A = Ran ⊎ A

-- What the commands call.
pub record Tools (pb : Protobuf) : Type 1 where
  pub daemon_flags : List Str → Parsed Options
  -- with the timeout, which the calls below meet
  pub ping_flags : List Str → Parsed Options
  -- with the interval, and whether to print once
  pub status_flags : List Str → Parsed (Options × ℕ × Bool)
  -- `InitializeDaemon` with the version set, and `Run` until a signal
  pub Runner : Type 0
  pub initialize : Options → Result Runner
  pub run : Runner → Option Str
  -- `ipc.Dial`, and the calls over a connection
  pub Conn : Type 0
  pub dial : Str → Result Conn
  pub ping : Conn → Result Str
  pub ask_status : Conn → Result (Option (StatusReply pb))
  pub run_program : Model → Option Str

module _ (pb : Protobuf) (sys : System) (tools : Tools pb) (version : Str) where
  open tools use {
    daemon_flags, ping_flags, status_flags, Runner, initialize, run, Conn, dial, ping, ask_status,
    run_program,
  }

  abbrev pub usage : List Str
  usage =
      lit "Usage: googlysync <command> [options]"
      ∷ lit "Commands:"
      ∷ lit "  daemon   Start the sync daemon"
      ∷ lit "  ping     Ping the daemon and print version"
      ∷ lit "  status   Launch status TUI"
      ∷ lit "  fuse     Placeholder for streaming mode"
      ∷ lit "  version  Print CLI version"
      ∷ lit "  help     Show this help"
      ∷ lit "(No command opens the status TUI)"
      ∷ []

  abbrev pub after_run : Option Str → Ran
  after_run none = prints []
  after_run (some e) = fails (lit "run failed: " ++ e)

  abbrev pub run_initialized : Result Runner → Ran
  run_initialized (err e) = fails (lit "init failed: " ++ e)
  run_initialized (ok d) = after_run (run d)

  unfoldable pub run_daemon : List Str → Ran
  run_daemon args = elim (daemon_flags args) [
    | inl ended ↦ ended
    | inr opts ↦ run_initialized (initialize opts)
  ]

  -- an error, on the standard output
  abbrev pub print_error : Str → Str → Ran
  print_error what e = prints ((what ++ lit " error: " ++ e) ∷ [])

  abbrev pub ping_over : Result Conn → Ran
  ping_over (err e) = print_error (lit "dial") e
  ping_over (ok conn) = elim (ping conn) [
    | err e ↦ print_error (lit "ping") e
    | ok v ↦ prints (v ∷ [])
  ]

  abbrev pub ping_with : Result Config → Ran
  ping_with (err e) = print_error (lit "config") e
  ping_with (ok cfg) = ping_over (dial cfg.socket_path)

  unfoldable pub run_ping : List Str → Ran
  run_ping args = elim (ping_flags args) [
    | inl ended ↦ ended
    | inr opts ↦ ping_with (new_config_with_options sys opts)
  ]

  abbrev pub print_status : Option (ProtoStatus pb) → Ran
  print_status none = prints (lit "UNKNOWN: no status" ∷ [])
  print_status (some st) = prints ((state_name st.state ++ lit ": " ++ st.message) ∷ [])

  abbrev pub print_reply : Option (StatusReply pb) → Ran
  print_reply none = prints (lit "UNKNOWN: no status" ∷ [])
  print_reply (some reply) = print_status reply.status

  abbrev pub status_over : Result Conn → Ran
  status_over (err e) = print_error (lit "dial") e
  status_over (ok conn) = elim (ask_status conn) [
    | err e ↦ print_error (lit "status") e
    | ok reply ↦ print_reply reply
  ]

  unfoldable pub print_status_once : Str → Ran
  print_status_once socket_path = status_over (dial socket_path)

  abbrev pub after_program : Option Str → Ran
  after_program none = prints []
  after_program (some e) = print_error (lit "ui") e

  abbrev pub status_with : ℕ → Bool → Result Config → Ran
  unfolding print_status_once
  status_with interval once (err e) = print_error (lit "config") e
  status_with interval once (ok cfg) =
      if once
      then print_status_once cfg.socket_path
      else after_program (run_program (new_model cfg.socket_path interval))

  unfoldable pub run_status : List Str → Ran
  unfolding status_with
  run_status args = elim (status_flags args) [
    | inl ended ↦ ended
    | inr (opts, interval, once) ↦ status_with interval once (new_config_with_options sys opts)
  ]

  abbrev pub run_fuse : Ran
  run_fuse = prints (lit "fuse placeholder: streaming mode not implemented" ∷ [])

  -- `main`, of the arguments after the program's name
  unfoldable pub main : List Str → Ran
  unfolding run_daemon run_ping run_status
  main [] = run_status []
  main (command ∷ args) =
      if str_eq command (lit "daemon")
      then run_daemon args
      else if str_eq command (lit "ping")
      then run_ping args
      else if str_eq command (lit "status")
      then run_status args
      else if str_eq command (lit "fuse")
      then run_fuse
      else if str_eq command (lit "version")
      then prints (version ∷ [])
      else if str_eq command (lit "help")
      then prints usage
      else record { out = usage; complaints = []; code = 2 }
