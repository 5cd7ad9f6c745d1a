-- ===== src/Lib.antt =====
-- RuntimePulse: a daemon that wakes the sessions of coding agents when events happen. Watchers and
-- clients inject events; the store keeps them, matches them against rules, and makes continuations in
-- one transaction (the outbox); a dispatcher claims the continuations of each session in their order,
-- resumes the agent through an adapter, records the verdict, and emits it as an event, which may
-- match further rules. This library models that core, the Go code under internal/, and beside it the
-- command that applies a workflow file, the set-up of agents, and the tools that agents call.
--
-- The parts, and the files that model them:
--
--   Core               internal/core/event.go, rule.go, session.go, continuation.go
--                      Event, EventSelector.Matches, Rule.Active, Rule.RenderPrompt
--   Store.Tables       internal/store/store.go (the schema), rules.go (scanRule, boolInt)
--   Store.Sql          Begin, Exec, Query, Commit, Rollback as the store uses them
--   Store.Ingest       internal/store/ingest.go and insertEventTx: ingest is Store.Ingest
--   Store.Continuations  internal/store/continuations.go: claim_continuation is
--                      ClaimContinuation, next_pending_for_session NextPendingForSession, ...
--   Store.Sessions, Store.Events, Store.Rules, Store.Watches
--                      the files of these names in internal/store
--   Store.Retention    internal/store/retention.go: sweep is Sweep
--   Store.OneShot      histories of all these operations, and their invariant
--   Bus                internal/bus/bus.go
--   Engine             internal/engine/engine.go: engine_ingest is Engine.Ingest
--   Dispatch           internal/dispatch/dispatcher.go: execute; Dispatch.Workers: scan, worker;
--                      Dispatch.System: the workers side by side, with clients of the store
--   Adapter            internal/adapter: runCLI, truncate, the four agents
--   Watch              internal/watch/watch.go; Watch.Poller: poller.go; Watch.Manager: manager.go;
--                      Watch.Docker: docker.go; Watch.File: file.go; Watch.Git: git.go
--   Workflow           internal/workflow/workflow.go: Parse and Rules
--   Daemon             internal/daemon/rpc.go: dispatch with every method; sweepOnce of daemon.go
--   Client             internal/client/client.go and handleConn of internal/daemon/rpc.go;
--                      Client.Apply: cmd/runtimepulse/cmd_apply.go
--   Setup              internal/setup: Setup.Block and the rules part of Setup.Agents are rules.go,
--                      Setup.Config is jsonmerge.go, Setup.Agents setup.go, native.go and file.go;
--                      Setup.Agents.Selection: cmd/runtimepulse/cmd_setup.go, the choice of agents
--   Tools              internal/mcpserver/tools.go: the tools that agents call
--   Prelude            shared names, lists, numbers, sorting
--   Examples           concrete runs
--
-- How the code is modelled:
--
--   - State is passed explicitly. The tables are a record of lists of rows in the order of insertion;
--     a connection is the tables and a list that says which of the next statements fail. A statement
--     that fails changes nothing, and a transaction that does not commit is rolled back. `healthy` is a
--     connection on which no statement fails by itself, and `run` a run on it.
--   - A time is a number of nanoseconds. The store writes times in one fixed width, in UTC, so that
--     SQLite compares the texts as it would the instants; the columns hold the instants here. The
--     clock's readings are arguments of the operations that read it.
--   - core.NewID draws from crypto/rand: the drawn ids are arguments, and a theorem that needs them to
--     be new says so.
--   - text/template, encoding/json, yaml.v3, time.ParseDuration, the %q of fmt, strings.TrimSpace, the
--     environment and the running of processes are parameters: functions in records.
--   - On an error Store.Ingest and Store.Sweep also return a part of their result, which no caller
--     uses; the model drops it. The text of a violated constraint is fixed.
--   - A cutoff of the sweep before Go's zero time is that time.
--   - Mutexes make each operation of the bus, of the manager and of the dispatcher's map one step;
--     orders of such steps are the indexed types History, BusHistory, ManagerHistory and Polled. Stop
--     is one step too, though it calls the cancel function after it has unlocked, and so is a scan,
--     which reads the pending sessions before it locks.
--   - The workers of the dispatcher are a list of sessions with the phase of each; Move is a statement
--     of one of them, of a scan, or of a client, and Life what happens from the boot to the shutdown.
--   - The loop of a worker runs on rounds, each with what it takes from outside; more rounds than the
--     pending continuations and the unconsumed rules together are enough (Dispatch.Workers.Drain).
--   - A call of a client may be lost before the daemon, or its response behind it.
--   - A text of the set-up is a list of characters, whose functions, those of package strings that the
--     markers need, are written out in Setup.Texts. The disk is a function from paths, and a write
--     replaces a file or fails as a whole.
--   - A panic of Go is an error with its text.
--   - The watchers are machines that are fed the events of fsnotify, with what os.Stat or the file HEAD
--     says at that time.
--   - The other loops run over lists and are structural, so that no fuel is needed; the digits of a
--     number are made with fuel, one more than the number (Prelude.Decimal.decimal_from_enough).
--
-- Not modelled: opening and migrating the database; the probes; the main loop of the daemon, its
-- sockets and locks, and its side of events.follow; the WebSocket and MCP servers; the prompts of the
-- set-up; the other commands. They are input and output for the most part.
pub mod Prelude
pub mod Core
pub mod Watch
pub mod Store
pub mod Bus
pub mod Engine
pub mod Dispatch
pub mod Adapter
pub mod Workflow
pub mod Daemon
pub mod Client
pub mod Setup
pub mod Tools
pub mod Examples
