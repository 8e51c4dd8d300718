-- ===== src/Lib.antt =====
-- dropboy keeps watched folders in step with an S3 bucket, encrypted on the machine. A daemon runs
-- the sync engine and serves a loopback HTTP API to the web interface, the terminal UI and the
-- command line. This library models backend/internal of the repository, and proves the properties
-- that the list at the end states.
--
-- How the parts work together. The daemon (Daemon.antt, daemon/daemon.go) loads the master key from
-- the keystore, starts the engine and lets the API unlock, pause and kick it. The engine
-- (Sync.antt, sync/engine.go) takes a snapshot of the folders, of the bucket and of the state
-- database, compares the three (plan), and executes what the compare gives: uploads and downloads
-- through the envelope of crypto/envelope.go, removals, conflicts. The server (Server.antt, server/)
-- guards the API and answers from its copy of the configuration and from the engine that the daemon
-- hands it.
--
-- Which file models what.
--  Base: bytes, dictionaries, and Exec, the results of Go calls beside the state they leave: a value,
--    an error, or a run-time panic. Os: package os, time and crypto/rand as an interface, with
--    IsReliable for what a system on which no call fails does. Every interface below has such a record.
--  Config, Config.Files: config/config.go. `Yaml` is the YAML package.
--  Store, S3: the interfaces of store/state.go and s3/client.go, with their records. Store.Sqlite and
--    S3.Aws are the implementations: `Database` is database/sql, whose statements are data, and `Sdk`
--    the AWS SDK.
--  Crypto.Primitives: AES-GCM, Argon2id, SHA-256, base64 and formats. Crypto.Envelope:
--    crypto/envelope.go. Crypto.Keystore: crypto/keystore.go, the sealed master key files.
--  Sync.Ops, Sync.Keys, Sync.Plan, Sync.Engine, Sync.Transfer (doUpload, doDownload), Sync.Snapshot,
--    Sync.Reconcile (execute, ReconcileOnce): sync/engine.go. A Go map is an association list, and the
--    order in which a loop ranges over it is a parameter of the pass (Ranges). Sync.Reconcile.Executed
--    has what one operation needs and leaves, Sequence the loop over a plan, Due the plan for true
--    snapshots, Settled and Second what a next pass finds. Sync.Snapshot.Truthful and Walked, and
--    Sync.Reconcile.Observed, are about when snapshots are true.
--  Sync.Throttle, Sync.Watcher: sync/throttle.go and watcher.go. `Source` is the reader and the clock,
--    `Notifier` is fsnotify. Sync.Watcher.Ticks has the steps of the watcher, the clock and the daemon.
--  Keychain: keychain/keychain.go, with `Tools` for running the platform's tools; Keychain.Manual says
--    what those do. Logging: the rotating writer of logging/logging.go on `LogFiles`.
--  Service.Launchd, Service.Systemd: service/launchd_darwin.go and systemd_linux.go, with `Runner` for the
--    tools; Service.Manual says what those do, Service.Reading what is read of a unit and a property list,
--    and Service.Installing what runs after an installation.
--  Tui.Commands, Tui.Model: the slash commands and the update function of tui/commands.go and model.go,
--    with `Terminal` for the styles and `TextInput` for the field; Tui.Completion is the suggestion.
--    Tui.View: what View and tui/app.go draw, with `Layout` for lipgloss.
--  Cli.Client, Cli.Folders, Cli.Init: cli/api_client.go with callAPI of daemon.go, cli/folders.go and
--    cli/init.go, with `Net` for net/http, `Filepath`, and `Words` for strings and os. The standard input
--    is a list of lines. Cli.Status: cli/status.go and doctor.go; Cli.Status.Served is the status
--    command against the server. Cli.Logs: the logs command of api_client.go. Cli.Control: the commands
--    of cli/daemon.go, recover.go and ui.go, with `Host` for package service and for running the daemon.
--  Daemon: daemon/daemon.go: Run up to serving, Unlock, UnlockWithRecovery, ForgetPassphrase,
--    SetPaused, KickSync, ResolveConflict, one round of the loop. `Services` is the keychain and the
--    two constructors. The calls and the rounds are the steps of Daemon.Running. Daemon.Adapter makes
--    the daemon the server's engine, and Daemon.Loop is the reconcile loop.
--  Server.Http, Server.Answer (early returns), Server.Token, Server.Auth: server/http.go, auth.go.
--    Server.RateLimit: the token buckets of middleware.go. Server.Events: the hub of events.go as
--    steps on bounded channels, and Server.Events.Sent is about what the subscribers get. Server.Routes: routes.go and the chain of handlers of server.go, over
--    `Dispatch` for http.ServeMux. Server.Api, Server.Api.Folders, Server.Api.Control, Server.Browse,
--    Server.Files, Server.Files.Build, Server.Files.Lookup: handlers.go; Server.Files.Watched is about
--    the paths that are given out. `Paths` is package
--    filepath and `View` what Stat and ReadDir return. Server.Api.Heartbeat: tickStatus and the bytes of
--    the event stream. Server.Start: New and Start of server.go, with `Listener` for the sockets.
--    Server.Page: spa.go, the limit on bodies and the recorder of middleware.go, version.go.
--  Tests: an environment in memory, and the theorems at concrete inputs.
--
-- Bounds and fuel. Three loops run on fuel. That of S3.Aws.list_pages needs more than there are pages,
-- since each turn takes a page. That of Cli.Init.show_recovery_code needs more than the input has
-- lines, since each question takes one while there are some. That of Cli.Logs.read_lines gets one more
-- than there are bytes, since each line takes one at least. The walk of a folder for the API recurses
-- on the levels that are left, eight at the root, as in the code. The recovery code recurses on the
-- characters that are left. The numbers of the config are integers, and those of a sealed key file
-- have the bounds of their types. All other numbers are natural numbers: sizes and counters are not wrapped,
-- since the code's are 64 bits wide, and times count nanoseconds from Go's zero time. The rate limiter counts whole units
-- and the throttled reader billionths of a byte where the code counts floats, so rounding is not
-- modelled. UnixNano in Store.Sqlite wraps around, as in the code.
--
-- A mutex makes each call one step. The code that goroutines run between two steps is not interleaved
-- with them, except in Server.Events, where any order of steps is allowed.
--
-- Not modelled: the frontend; the tree of commands and its flags, which is cobra's; the colours of the
-- terminal UI; the log lines of requests and package slog. JSON bodies come decoded.
pub mod Base
pub mod Os
pub mod Config
pub mod Store
pub mod S3
pub mod Crypto
pub mod Sync
pub mod Server
pub mod Daemon
pub mod Tui
pub mod Cli
pub mod Keychain
pub mod Logging
pub mod Service
mod Tests
