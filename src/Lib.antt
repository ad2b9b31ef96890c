-- ===== src/Lib.antt =====
-- PumpkinPie: the scheduling of GPU containers on a cluster of nodes, by a master and an agent on
-- each node.
--
-- The program. Agents connect to the master by gRPC and report their node's metrics and the
-- lifecycle of its containers (proto/agent.proto). The master keeps nodes, containers, GPU
-- reservations and proxy ports in SQLite (internal/master/store), picks a node for a container
-- (internal/master/scheduler), tracks the agents' sessions (internal/master/agentmgr), serves an
-- HTTP API that creates, starts, stops and deletes containers (internal/master/api), forwards
-- TCP connections on allocated ports to the agents' hosts (internal/master/proxy), and writes the
-- metrics to a sink (internal/master/metrics). An agent (internal/agent) carries out the master's
-- commands through Docker's HTTP API (internal/agent/docker), watches the containers by Docker's
-- events and by polling, collects metrics (internal/agent/collector), and registers with an id that
-- it keeps in a file (internal/agent/identity).
--
-- The files.
--   Prelude, Exec: names, lists, rows of tables, dictionaries and texts; Go functions that change
--     state and may fail, with rules for invariants (Exec/Keeps) and for inversion (Exec/Inversion).
--   Store: internal/master/store/store.go. Tables has the rows, Sql what is asked of the SQL
--     driver, Statements the writes with the constraints of `schema`; Nodes, Containers, Ports
--     and Gpus have one function per method. Validity states the constraints, Lasting that what
--     every statement keeps every operation keeps, Calls the sequences of operations, Ledger the
--     contract of the reservations of GPUs as a client sees them.
--   Float: the float64 operations, a parameter. Scheduler: internal/master/scheduler/scheduler.go.
--   AgentMgr: internal/master/agentmgr/manager.go and metrics.Metric. State has the manager with
--     its session map and channels, Register OnAgentConnect, Reports handleMetrics, Handlers the
--     other messages, Disconnect the end of a stream and HandleMessages, Steps the transitions.
--   Proxy: internal/master/proxy/proxy.go, Proxy/Connections what becomes of a connection, Proxy/Pipe
--     the two goroutines that copy its bytes, as a step relation, and rebindExistingProxyRoutes of
--     internal/cmd/master/master.go in Proxy/Startup. Api: internal/master/api/api.go and
--     internal/master/api/util.go; State has what the handlers share, Checks, Placement and Create
--     createContainer, Lifecycle the other handlers that write, Served the requests as a whole,
--     Reserved and Granted what an accepted create leaves, Reads the handlers that read, Websocket
--     the dashboards' feeds, Names the names of containers.
--   Agent: internal/agent/agent.go. States has the words for a container's state, Poll and Events
--     the two loops that watch the containers, Together both side by side, Commands the handlers of
--     the master's commands, Serve a connection, Run the reconnection. Hearing is the master that
--     the messages reach.
--   Docker: internal/agent/docker/client.go, Docker/Create its Create, Docker/Listing its lists,
--     Docker/Streams its events, Docker/Mapped its ports, Docker/Client the client as Agent/Commands
--     takes it. Collector: internal/agent/collector/collector.go.
--     Identity: internal/agent/identity/identity.go. Config: the two config.go files and the
--     settings of internal/cmd/agent/agent.go. Sink: internal/master/metrics/greptime.go,
--     and sinkLoop of the manager in Sink/Worker.
--   Command: cmd/pp/main.go, Command/Master Run of internal/cmd/master/master.go, Command/Node Run of
--     internal/cmd/agent/agent.go with New of internal/agent/agent.go, Rejoin both sides of a restart.
--   Tests: the theorems at concrete data, and runs.
--
-- Conventions. A call returns Exec: the result or the error, and the state it leaves. Which
-- statements, BEGINs and COMMITs the driver fails is a list in the database (`faults`), so a
-- theorem that speaks of a `Db` holds for all failures; `calm` is a database that fails nothing
-- more. A query returns all its rows or fails. Failing sends on streams, failing net.Listen and
-- failing calls of the operating system are such lists too. What time.Now returns in a call is an
-- argument, 0 is the zero time and NULL; the random ids are arguments. float64 and int64 are carried
-- as their 64-bit patterns. A table lists its newest row first. A Go map is a list in which a key
-- occurs once, and the order in which `range` visits one is an argument where it matters. The
-- operations of the store are atomic (one statement, or a transaction under the store's mutex), so
-- sequences of operations are the interleavings of the goroutines. What Docker, gopsutil,
-- encoding/json, YAML and the GreptimeDB client do is a parameter; filepath.Join is taken for the
-- two parts with a slash between them.
--
-- Bounds. The loops recurse on lists, or on the number of rounds left, which is the length of the
-- range they run over (AllocPort, AllocGPUs), so no fuel can run out. The uint32 counter of
-- AllocPort's loop does not wrap in the model; it would only if the range ended at 2^32 - 1. The
-- uint32 conversion of the number of pinned GPUs is written out. Decimal digits are printed with the
-- number itself as fuel, which is enough (Prelude/Texts). The loops of the agent run over the list
-- of what they meet: ticks, rounds, events.
--
-- Not modelled: the interleaving of the agent's commands (they are carried out in the order in which
-- they come) and of the metrics loop with its other goroutines, signal handlers, the closing of the proxy's listeners when the
-- master's context ends, the web dashboard and the installers; the texts that encoding/json makes
-- (parameters), and log lines.
pub mod Prelude
pub mod Exec
pub mod Store
pub mod Float
pub mod Docker
pub mod Collector
pub mod Identity
pub mod Config
pub mod Command
pub mod Sink
pub mod Agent
pub mod AgentMgr
pub mod Proxy
pub mod Api
pub mod Scheduler
pub mod Tests
