-- ===== src/Lib.antt =====
-- googlysync, the desktop client for Google Drive: the parts of its daemon that hold state or decide
-- something, as functions and step relations, and what they guarantee.
--
-- The daemon resolves its configuration (internal/config), watches the sync root (internal/fswatch),
-- and forwards the watcher's events through a bounded queue to the sync engine (internal/sync). The
-- watcher and the engine report to the status store (internal/status), which the server (internal/ipc)
-- shows to the terminal's status view (cmd/googlysync/tui.go).
-- The auth service (internal/auth) signs accounts in and out: it keeps them in the database
-- (internal/storage) and their refresh tokens in the keyring.
--
-- Which file models which part:
--   Prelude      Go's strings as lists of bytes (`Str`), `int` where the sign matters (`ℤ`), times as
--                nanoseconds since the zero time, `(value, error)` pairs (`Result`), maps (`Dict`) and
--                buffered channels with a `select` that drops (`Channel`).
--   Config       internal/config/config.go: `new_config_with_options` is `NewConfigWithOptions`,
--                `apply_config_file`, `apply_env` and `split_list` are the functions of those names.
--                `System` holds the environment, the directories of the operating system, the reading
--                of a file, the decoding of its JSON and `filepath.Join`. `strconv.Atoi` is modelled.
--   Status       internal/status/status.go: a `Store` before and after each method.
--   Fswatch      internal/fswatch/fswatch.go and events.go. `Ops` has the operations, `Paths`
--                `shouldIgnore` with `filepath.Base`, `Walk` `addRecursive` over a tree, `Watcher` the
--                state with `handleEvent`, `flushPending`, `Start` and the loop `run`. fsnotify's
--                constants (`Masks`), `filepath.Match` and `filepath.Rel` (`Filepath`), the answers of
--                the file system and whether fsnotify accepts a directory are parameters.
--   Ipc          internal/ipc: the answers of the server (`get_status`, `get_auth_state`) in the messages
--                of proto/, and the stream `watch_status`. Protobuf's conversion of times is a
--                parameter with the law that it loses nothing. `Server` has what `Start` and `Stop` do
--                to the socket.
--   Daemon       internal/daemon/daemon.go: `Run` with the goroutines that it starts as a step relation
--                (`Step`, `Reach`), and `Close`. A step is one of `Run` (its two cases), of the server's
--                goroutine, or of whoever cancels the context, in any order. `Served`, `Shutdown`
--                and `Stopping` are about the return of `Run`. `Pipeline` has the way of an
--                event: the loop of the watcher, the goroutine that forwards, the queue and the loop of
--                the engine, whose steps (`Action`) are taken in any order; `Calm` says when the ticks of
--                the watcher find no pause.
--   Tui          cmd/googlysync/tui.go: model, `update`, `view` and what `pollStatusCmd` makes of an
--                answer; `Polls` runs it under a runtime that carries out its commands in any order.
--   Sync         internal/sync/queue.go and sync.go: the queue and the engine's loop.
--   Storage      internal/storage/store.go: `Accounts`, `Tokens`, `SyncStates`, `Files`, `Folders`,
--                `Drives` and `Pending` have the records and operations of those names, `Records` what
--                they share, the checks before a statement and the scanning of rows, and `Prefixes`
--                `escapeLike` with the listings by prefix; `Cascade` and `Falling` are about deleted
--                accounts. `Sql`
--                has the statements as data, with SQLite as a parameter (`Engine`), whose laws are those
--                of statements by primary key, of cascading deletes over the tables of
--                internal/storage/migrations, of queries with their order and limit, and of LIKE;
--                whether a statement succeeds is left to it. `Migrations` has the two files of
--                internal/storage/migrations as changes of a `Schema`. `Times` has `unixTime` and its
--                inverse, and `Opening` has `NewStorage` of storage.go.
--   Auth         internal/auth: of auth.go, `Active` chooses the account to start with, `Service` has
--                `SignIn`, `SignOut` and `RefreshAccessToken` over the storage, `Scopes` `scopeString`;
--                of oauth.go, `Oauth` has the flow, its callback, `openBrowser` and `decodeJWTClaims`.
--                The keyring, the exchange of a token, the random source, the hash, the codecs, the
--                network and the browser are parameters. What the select of the flow meets first is an
--                argument; `Oauth.Requests` has its two channels under any number of requests.
--   Cmd          cmd/googlysync/main.go: `main` and its commands, with what they print and their exit
--                codes, `Wiring` the parts that providers.go makes from a configuration, and
--                `Injector` the `InitializeDaemon` of wire_gen.go over all the parts above.
--   Memory       a database, a keyring and the calls of the flow as functions, at which the theorems on
--                Storage and Auth are run.
--
-- A method that holds a mutex throughout is one step. Readings of the clock are arguments, one for each
-- call of `time.Now`. A loop over a Go map is given the order in which it meets the keys, and what is
-- proved holds for each order. No definition needs fuel: loops are recursions over lists, texts or
-- trees. Numbers that cannot become negative are natural numbers; the only arithmetic that could
-- overflow in the source adds to lengths and times far from their limits.
--
-- Not modelled: the client's dialling in internal/ipc/client.go, which is two calls of gRPC; the
-- template wire.go, which wire_gen.go is generated from; what the migrations do to rows; log lines, the parsing of flags, goroutine scheduling inside the Go runtime, and
-- whatever the parameters above stand for. Of the flow's channels, what `Serve` itself sends when it
-- fails is left out.
mod Prelude
pub mod Config
pub mod Logging
pub mod Fswatch
pub mod Status
pub mod Sync
pub mod Ipc
pub mod Tui
pub mod Storage
pub mod Auth
pub mod Daemon
pub mod Cmd
pub mod Memory
