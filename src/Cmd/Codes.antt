-- ===== src/Cmd/Codes.antt =====
-- The exit codes and the outputs of the commands of cmd/googlysync/main.go.
use googlysync.Prelude.{
  Bool, true, false, ◌≡◌, inr, refl, Option, none, some, List, [], Str, Result, Result-cases, inl,
  ok, err, ◌>>=◌, ◌++◌, ◌∷◌, lit, ℕ,
}
use googlysync.Config.{Config, Options, System, new_config_with_options}
use googlysync.Ipc.{Protobuf, StatusReply, ProtoStatus}
use googlysync.Tui.{new_model}
use googlysync.Tui.Answer.{state_name}
use googlysync.Cmd.{
  Tools, prints, after_run, run_initialized, run_daemon, ping_over, ping_with, run_ping,
  print_reply, print_status, status_over, print_status_once, after_program, status_with, run_status,
}

-- an error with what it is named by
abbrev pub named {ℓ} : {A : Type ℓ} → Str → Result A → Result A
named what (ok a) = ok a
named what (err e) = err (what ++ e)

-- a call that returns an error or none
abbrev pub called : Option Str → Result (Unit {0})
called none = ok tt
called (some e) = err e

-- the line that is written: a text, or the error in its place
abbrev pub line : Result Str → Str
line (ok v) = v
line (err e) = e

-- an error's line
abbrev pub error_lines : Result (Unit {0}) → List Str
error_lines (ok u) = []
error_lines (err e) = e ∷ []

abbrev pub code_of : Result (Unit {0}) → ℕ
code_of (ok u) = 0
code_of (err e) = 1

module _ (pb : Protobuf) (sys : System) (tools : Tools pb) (version : Str) where
  open tools use {
    daemon_flags, ping_flags, status_flags, Runner, initialize, run, Conn, dial, ping, ask_status,
    run_program,
  }

  abbrev pub reply_line : Option (StatusReply pb) → Str
  reply_line none = lit "UNKNOWN: no status"
  reply_line (some reply) = elim reply.status [
    | none ↦ lit "UNKNOWN: no status"
    | some st ↦ state_name st.state ++ lit ": " ++ st.message
  ]

  -- what each command does, up to the first error
  abbrev pub daemon_chain : Options → Result (Unit {0})
  daemon_chain opts = do
    d ← named (lit "init failed: ") (initialize opts)
    named (lit "run failed: ") (called (run d))

  abbrev pub ping_chain : Result Config → Result Str
  ping_chain resolved = do
    cfg ← named (lit "config error: ") resolved
    conn ← named (lit "dial error: ") (dial cfg.socket_path)
    named (lit "ping error: ") (ping conn)

  abbrev pub once_chain : Result Config → Result Str
  once_chain resolved = do
    cfg ← named (lit "config error: ") resolved
    conn ← named (lit "dial error: ") (dial cfg.socket_path)
    reply ← named (lit "status error: ") (ask_status conn)
    ok (reply_line reply)

  abbrev pub view_chain : ℕ → Result Config → Result (Unit {0})
  view_chain interval resolved = do
    cfg ← named (lit "config error: ") resolved
    named (lit "ui error: ") (called (run_program (new_model cfg.socket_path interval)))

  abbrev pub status_lines : ℕ → Bool → Result Config → List Str
  status_lines interval true resolved = line (once_chain resolved) ∷ []
  status_lines interval false resolved = error_lines (view_chain interval resolved)

  run_initialized-chain :
      (r : Result Runner)
      → run_initialized pb sys tools version r ≡ (
          let c = (do
            d ← named (lit "init failed: ") r
            named (lit "run failed: ") (called (run d))) in
          record { out = []; complaints = error_lines c; code = code_of c })
  run_initialized-chain (err e) = refl
  run_initialized-chain (ok d) = after (run d)
    where
      after :
          (o : Option Str)
          → after_run pb sys tools version o ≡ record {
            out = [];
            complaints = error_lines (named (lit "run failed: ") (called o));
            code = code_of (named (lit "run failed: ") (called o));
          }
      after none = refl
      after (some e) = refl

  ping_with-chain :
      (r : Result Config) → ping_with pb sys tools version r ≡ prints (line (ping_chain r) ∷ [])
  ping_with-chain (err e) = refl
  ping_with-chain (ok cfg) = over (dial cfg.socket_path)
    where
      over :
          (r : Result Conn)
          → ping_over pb sys tools version r
            ≡ prints (
                line
                  (do conn ← named (lit "dial error: ") r; named (lit "ping error: ") (ping conn))
                ∷ [])
      over (err e) = refl
      over (ok conn) = elim (Result-cases (ping conn)) [
        | inl (v, h) ↦ rw (ping_over, h) refl
        | inr (e, h) ↦ rw (ping_over, h) refl
      ]

  print_reply-line :
      (r : Option (StatusReply pb))
      → print_reply pb sys tools version r ≡ prints (reply_line r ∷ [])
  print_reply-line none = refl
  print_reply-line (some reply) = shown reply.status
    where
      shown :
          (st : Option (ProtoStatus pb))
          → print_status pb sys tools version st
            ≡ prints (
                elim st [
                  | none ↦ lit "UNKNOWN: no status"
                  | some x ↦ state_name x.state ++ lit ": " ++ x.message
                ]
                ∷ [])
      shown none = refl
      shown (some st) = refl

  status_over-chain :
      (r : Result Conn)
      → status_over pb sys tools version r
        ≡ prints (
            line (do
              conn ← named (lit "dial error: ") r
              reply ← named (lit "status error: ") (ask_status conn)
              ok (reply_line reply))
            ∷ [])
  status_over-chain (err e) = refl
  status_over-chain (ok conn) = elim (Result-cases (ask_status conn)) [
    | inl (reply, h) ↦ rw (status_over, h) (print_reply-line reply)
    | inr (e, h) ↦ rw (status_over, h) refl
  ]

  after_program-lines :
      (o : Option Str)
      → after_program pb sys tools version o
        ≡ prints (error_lines (named (lit "ui error: ") (called o)))
  after_program-lines none = refl
  after_program-lines (some e) = refl

  status_with-lines :
      (interval : ℕ) (once : Bool) (r : Result Config)
      → status_with pb sys tools version interval once r ≡ prints (status_lines interval once r)
  unfolding status_with print_status_once
  status_with-lines interval true (err e) = refl
  status_with-lines interval false (err e) = refl
  status_with-lines interval true (ok cfg) = status_over-chain (dial cfg.socket_path)
  status_with-lines interval false (ok cfg) = after_program-lines _

  -- With flags that parse: the command `daemon` prints nothing and exits with 0 where the daemon
  -- starts and its `Run` returns nil, and else writes the first error, named `init failed` or
  -- `run failed`, to the standard error and exits with 1. The commands `ping` and `status` write
  -- nothing to the standard error and exit with 0: on the standard output `ping` writes the version
  -- or the first error, `status -once` the status or the first error, each error named by its step,
  -- and `status` the error with which the configuration or the view fails, if one does.
  pub exit_codes :
      (daemon_args ping_args status_args : List Str) (daemon_opts ping_opts status_opts : Options)
      (interval : ℕ) (once : Bool)
      → daemon_flags daemon_args ≡ inr daemon_opts
      → ping_flags ping_args ≡ inr ping_opts
      → status_flags status_args ≡ inr (status_opts, interval, once)
      → (run_daemon pb sys tools version daemon_args ≡ record {
        out = [];
        complaints = error_lines (daemon_chain daemon_opts);
        code = code_of (daemon_chain daemon_opts);
      })
        × (run_ping pb sys tools version ping_args
            ≡ prints (line (ping_chain (new_config_with_options sys ping_opts)) ∷ []))
        × (run_status pb sys tools version status_args
            ≡ prints (status_lines interval once (new_config_with_options sys status_opts)))
  unfolding run_daemon run_ping run_status
  exit_codes daemon_args ping_args status_args daemon_opts ping_opts status_opts interval once d p
        s =
      (
        rw (run_daemon, d) (run_initialized-chain (initialize daemon_opts)),
        rw (run_ping, p) (ping_with-chain (new_config_with_options sys ping_opts)),
        rw (run_status, s)
            (status_with-lines interval once (new_config_with_options sys status_opts)),
      )
