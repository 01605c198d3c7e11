-- ===== src/Lib.antt =====
-- EntropyGen runs AI agents on Kubernetes. An operator turns Agent resources into the objects that an
-- agent needs; a gateway stands between the agents and the LLM and Gitea servers and audits every
-- request; a collector turns webhooks and Kubernetes events into messages; the backend stores the
-- messages and shows them to users. The parts talk through Redis streams of events.
--
-- The files and the code they model:
--   Common: Go's strings, maps, errors and results, tests on numbers, sequences of calls (Actions)
--     and package path/filepath (Paths).
--   Events (internal/common/models/event.go), Streams (internal/common/redisclient), GiteaClient
--     (internal/common/giteaclient/client.go, its Issues for CreateIssue and resolveLabelIDs).
--   Operator: Types (internal/operator/api/types.go), Objects (the objects that are written, and the
--     API server with its laws), Reconciler and its children (internal/operator/reconciler: RoleDir,
--     Storage, ConfigMaps, GiteaUser, Jwt, RoleStep, Binding, Deployment, and All for ReconcileAll),
--     Controller (Reconcile and the conditions of controller/agent_controller.go), RoleWatcher (the
--     same file's roleWatcher), Scheduler (scheduler).
--   Gateway: Bucket and Limiter (internal/gateway/ratelimit), Audit (internal/gateway/audit), Auth and
--     Proxy (internal/gateway/handler).
--   Collector: Pods (internal/event-collector/k8swatch), Webhook (internal/event-collector/webhook).
--   ChWriter (internal/backend/chwriter) and ChWriter/Trace (its EventToTrace, and
--     internal/common/chclient/insert.go), WsPush (internal/backend/wspush).
--   Backend: Files (package os, with its laws), Roles with RoleFiles, Listing, Creation and Validation
--     (internal/backend/k8sclient/role_fs.go), Agents (k8sclient/agent_cr.go), Heartbeat
--     (internal/backend/heartbeat), Handlers with Roles, Uploads, Agents, Assign, Specs,
--     Auth and Users (internal/backend/handler: roles.go, agents.go, auth.go, users.go,
--     and Audit for a part of audit.go). A handler is a function from the bound request to an answer.
--   Observer: Tree, Content, GitStatus and DiffStat (internal/observer/workspace.go), Poller
--     (poller.go), Watcher (watcher.go).
--   Examples: runs at concrete inputs.
-- A Go function keeps its name in snake case. A module that stands below the one of the code holds
-- lemmas on it and is named for what they are about.
--
-- Code that changes something is a function on an explicit state: a step of the reconciler maps a Run,
-- which is the world, the agent object in memory and the role data, to a result and a new Run; a call
-- of a service maps a world to a result and a new world. The services themselves are parameters: the
-- API server, the Gitea SDK, the JWT, HMAC, JSON and cron libraries, the reverse proxy, the arithmetic
-- of float64, ClickHouse, Redis, git and the file system. Where a theorem needs more of one than its
-- type, that is a named hypothesis: KubeLaws for a client that reads what is stored, WriteLaws for one
-- whose reads come from a cache, FileLaws, RoleLaws, JwtLaws, AckLaws, Hs256, RoundTrips. Mutexes make
-- each operation on shared state one step; orders of such steps are lists (Turn, Op, RoleOp).
--
-- Every loop of the code that is modelled runs over a list or counts attempts, and is structural, but
-- the one of resolveLabelIDs over pages: it takes fuel, of which one page more than are full is enough.
-- A directory is a finite tree. Texts are lists of bytes; where JSON replaces invalid UTF-8 the codec
-- says so. Widths of integers are written out where a value could exceed them: the columns of
-- ChWriter/Trace.
--
-- Not modelled: the memory limits of controller/oom_handler.go, which only a test uses; the
-- observer's servers; the backend's statistics, its handlers on LLM settings and its proxies; the
-- Gitea command line; the queries of ClickHouse and Postgres, which are SQL texts; wiring, logging and
-- tickers, which decide nothing; generated code.
pub mod Common
pub mod GiteaClient
pub mod Operator
pub mod Events
pub mod Gateway
pub mod Streams
pub mod Collector
pub mod ChWriter
pub mod WsPush
pub mod Backend
pub mod Observer
mod Examples
