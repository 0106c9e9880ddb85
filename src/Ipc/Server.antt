-- ===== src/Ipc/Server.antt =====
-- `Start` and `Stop` of internal/ipc/server.go: what they do to the socket, and what `Start` returns.
-- Which calls of the operating system and of gRPC fail is given by the environment.
use googlysync.Prelude.{Bool, true, false, Option, none, some, if◌then◌else◌, Str, lit, is_empty}

-- a call that may return an error
abbrev pub Outcome : Type 0
Outcome = Option Str

-- What `Server` holds, and whether gRPC serves on the listener.
pub record Listening : Type 0 where
  pub listener : Bool
  pub grpc_server : Bool
  pub serving : Bool

abbrev pub not_listening : Listening
not_listening = record { listener = false; grpc_server = false; serving = false }

-- `Start` up to the two goroutines that wait: the directory is made, an old socket is removed, and
-- the socket is listened on. An error is returned at once.
unfoldable pub listen : Str → Outcome → Outcome → Listening → Listening × Outcome
listen socket_path made listened s =
    if is_empty socket_path then (s, some (lit "socket path not configured")) else elim made [
      | some e ↦ (s, some e)
      | none ↦ elim listened [
        | some e ↦ (s, some e)
        | none ↦ (record { listener = true; grpc_server = true; serving = true }, none)
      ]
    ]

-- `Start` after `ctx.Done()`: `GracefulStop`, then the listener is closed.
unfoldable pub stop_gracefully : Listening → Listening
stop_gracefully s = record s { serving = false; listener = false }

-- `Stop`: of a server that has not been started there is nothing to stop.
unfoldable pub stop : Listening → Listening
stop s = record s { serving = if s.grpc_server then false else s.serving; listener = false }
