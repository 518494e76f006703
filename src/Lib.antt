-- ===== src/Lib.antt =====
-- Pulsebox: the health scores of a Kubernetes cluster, its topology graph, and the stream of diffs
-- that keeps the dashboards up to date.
--
-- The program. The collector (internal/collector) watches the cluster. Whenever something changes it
-- builds a topology graph (internal/topology) in which each object has a verdict (internal/health):
-- a state, a score from 0 to 1 and reasons. Namespaces and the cluster have the roll-up of what is
-- below them. `rebuild` compares the graph with the one before and gives the difference to the broker,
-- which puts it into the channel of each WebSocket client; a client (internal/web/static/app.js)
-- starts from a snapshot and applies the diffs.
--
-- The files.
--   K8s: the API objects, as far as they are read. They come from k8s.io/api, so they are plain data.
--   Health: internal/health/health.go. States, results and ranks (Health), `Node` (Nodes), `Pod`
--     (Pods), `Workload`, its adapters and `Service` (Workloads), `PV` and `PVC` (Storage),
--     `NormalizeReasons` and `topReasons` (Reasons), `Aggregate` (Rollup). Below each stand the
--     specification and the proofs. A loop of the source is a function on the list, with the loop's
--     variables as a record; the early return of `Pod` is the data type `Scanned`.
--   Topology: internal/topology/topology.go, and `applyMessage` of internal/web/static/app.js. The
--     loops that nodes and edges share are in Topology/Index.
--   Collector/Broker: internal/collector/broker.go. A channel is the list of its buffered values;
--     History has the calls since a subscriber joined.
--   Collector/Stream: `rebuild` of internal/collector/graph.go, from the graph that `buildGraph`
--     returns; `Subscribe` and `Snapshot` of internal/collector/collector.go; the loop of
--     `handleStream` of internal/api/api.go. The steps of a world of clients are the relation `Step`.
--   Collector/Build: `buildGraph` and its helpers, of internal/collector/graph.go. A lister is the list
--     of the objects in its cache. `Build` holds the variables of the function, each loop is a function
--     on the list of objects (Storage, Workloads, Pods, Roots), `finish` drops edges and sorts.
--   Collector/Debounce: `markDirty`, `Start` and `rebuildLoop` of internal/collector/collector.go, as
--     steps on the signals between informers and loop. A version counts the changes of the caches.
--   Collector/Events: `WarningEvents` of internal/collector/accessors.go.
--   Collector/Restarts: internal/collector/restart.go.
--   Collector/Access: the collector as a whole, with `New`, `Start` once the caches have synced and
--     `rebuild`, and internal/collector/accessors.go; `GetResource` is in Resources. Life has the steps
--     that a collector goes through; Shown to Origins relate the objects to the nodes of the graph.
--   Collector/Scope: `NamespaceSnapshot` of internal/collector/collector.go.
--   Api: internal/api/api.go. The routes and the JSON handlers (Api), and `handleStream` (Sessions),
--     where a server is the stream with the handlers that run, and its steps take failing writes, pings
--     and clients that close. Sessions/Simulates relates it to the clients of Collector/Stream.
--     Answers has the request of the dashboard, `fetchResource` of internal/web/static/app.js.
--   Metrics: internal/metrics/metrics.go. A scrape is the list of the samples that `Collect` sends.
--   Command: cmd/pulsebox/main.go. The configuration, the choice of the kube config, and the pages of
--     the two servers.
--   Base: shared notation, lists, maps, sorting, integers, texts and durations.
--   Tests: runs at concrete inputs.
--
-- Numbers. A Go int that counts is a natural number; int32, time.Time and time.Duration are integers,
-- with the wrap-around of int32 and the saturation of `Sub` written out (Base/Int). The broker's next
-- id wraps at 2^64, so it is assumed that fewer clients connect. float64 is an interface (Base/Float)
-- whose laws are those of IEEE 754 on non-negative numbers; Base/Fixed has a number type that
-- satisfies them. Literals are in hundredths.
--
-- Maps. A Go map is an association list. Go walks a map in an unspecified order; here that is the
-- order of the entries, and the sender's lists of upserts and removals are in that order.
-- Topology/Walks and Topology/Matches are about the other orders.
--
-- Mutexes. Each method that holds a mutex from end to end is one step. `Subscribe` and the second
-- half of `rebuild` hold the collector's mutex around the broker's, so they are one step each.
--
-- Loops are recursions on lists. Fuel is used for the digits of a number, as much as the number itself,
-- and for the exchange sort, as much as there are messages.
--
-- HTTP. A request has the segments of its path, decoded, as net/http matches them, and an answer has
-- the value that is encoded as JSON. Whether a write to a WebSocket succeeds is up to the step.
--
-- Not modelled: the parsing of flags and of durations, the signals, the end of the context and the
-- shutdown, which are input and output; the help texts of the metrics; the drawing of the dashboard;
-- and what only calls libraries: informers, WebSocket frames and deadlines, JSON, the file server.
mod Base
pub mod K8s
pub mod Health
pub mod Topology
pub mod Collector
pub mod Api
pub mod Metrics
pub mod Command
mod Tests
