-- ===== src/Api.antt =====
-- internal/api/api.go: the routes and the handlers that answer with JSON; `handleStream` is in Sessions.
-- A request has the segments of its path, each decoded, as net/http matches them. The JSON of a body
-- is the value that is encoded. The API objects are read without their managed fields.
pub mod Kinds
pub mod Asked
pub mod Answers
pub mod Details
pub mod Sessions
use pulsebox.Base.{
  ℕ, String, Bool, true, false, ◌&&◌, ◌||◌, not, List, [], ◌∷◌, Option, none, some, if◌then◌else◌,
  ◌==◌, string_eq,
}
use pulsebox.Base.Int.{Time}
use pulsebox.Topology.{Graph}
use pulsebox.Collector.Stream.{snapshot}
use pulsebox.Collector.Scope.{namespace_snapshot}
use pulsebox.Collector.Events.{warning_events}
use pulsebox.Collector.Access.{Collector, stream_subscribers}
use pulsebox.Collector.Access.Resources.{
  lowers_to, Object, AccessError, Access, got, failed, get_resource,
}

-- `ready` is the query's parameter, empty where it is missing.
pub record Request : Type 0 where
  pub method : String
  pub path : List String
  pub ready : String

pub data Route : Type 0 where
  topology : Route
  topology_of : String → Route
  resource : String → String → String → Route
  stream : Route
  health : Route

pub data Body (F : Type 0) : Type 0 where
  graph_body : Graph F → Body F
  error_body : AccessError → Body F
  resource_body : String → String → String → Object → List String → Body F
  -- The fields "synced", "subscribers" and "time"; the "status" is "ok".
  health_body : Bool → ℕ → Time → Body F

-- A status and a body, or the upgrade to a WebSocket.
pub data Answer (F : Type 0) : Type 0 where
  json : ℕ → Body F → Answer F
  upgrade : Answer F

-- The patterns of `RegisterRoutes`. A wildcard stands for one segment that is not empty.
unfoldable pub match_path : List String → Option Route
match_path (api ∷ what ∷ []) =
    if not (api == "api")
    then none
    else if what == "topology"
    then some topology
    else if what == "stream"
    then some stream
    else if what == "health"
    then some health
    else none
match_path (api ∷ what ∷ ns ∷ []) =
    if api == "api" && what == "topology" && not (ns == "") then some (topology_of ns) else none
match_path (api ∷ what ∷ kind ∷ ns ∷ name ∷ []) =
    if api == "api" && what == "resource" && not (kind == "") && not (ns == "") && not (name == "")
    then some (resource kind ns name)
    else none
match_path _ = none

-- A pattern of the method GET serves HEAD too.
unfoldable pub route : Request → Option Route
unfolding match_path
route r = if r.method == "GET" || r.method == "HEAD" then match_path r.path else none

unfoldable pub canonical_kind : String → String
unfolding lowers_to
canonical_kind kind =
    if lowers_to kind "pvc" || lowers_to kind "persistentvolumeclaim"
    then "PersistentVolumeClaim"
    else if lowers_to kind "pv" || lowers_to kind "persistentvolume"
    then "PersistentVolume"
    else if lowers_to kind "pod"
    then "Pod"
    else if lowers_to kind "node"
    then "Node"
    else if lowers_to kind "namespace"
    then "Namespace"
    else if lowers_to kind "deployment"
    then "Deployment"
    else if lowers_to kind "statefulset"
    then "StatefulSet"
    else if lowers_to kind "daemonset"
    then "DaemonSet"
    else if lowers_to kind "service"
    then "Service"
    else kind

-- A literal "-" in the namespace's place denotes a cluster-scoped object.
unfoldable pub namespace_of : String → String
namespace_of ns = if ns == "-" then "" else ns

module _ {F : Type 0} where
  unfoldable pub handle_topology : Collector F → Answer F
  unfolding snapshot
  handle_topology c = json 200 (graph_body (snapshot c.stream))

  unfoldable pub handle_topology_namespace : String → Collector F → Answer F
  unfolding snapshot namespace_snapshot
  handle_topology_namespace ns c = json 200 (graph_body (namespace_snapshot ns (snapshot c.stream)))

  -- What `handleResource` answers with what `GetResource` gives.
  resource_answer : String → String → String → Access → Collector F → Answer F
  unfolding warning_events canonical_kind
  resource_answer kind ns name (failed e) c = json 404 (error_body e)
  resource_answer kind ns name (got o) c =
      json 200
        (resource_body kind ns name o (warning_events c.events (canonical_kind kind) ns name 10))

  unfoldable pub handle_resource : String → String → String → Collector F → Answer F
  unfolding namespace_of get_resource resource_answer
  handle_resource kind given name c =
      let ns = namespace_of given in resource_answer kind ns name (get_resource kind ns name c) c

  unfoldable pub handle_health : Time → String → Collector F → Answer F
  unfolding stream_subscribers
  handle_health now ready c =
      json (if not (ready == "") && not c.synced then 503 else 200)
        (health_body c.synced (stream_subscribers c) now)

  unfoldable pub handle : Time → Request → Route → Collector F → Answer F
  unfolding handle_topology handle_topology_namespace handle_resource handle_health
  handle now r topology c = handle_topology c
  handle now r (topology_of ns) c = handle_topology_namespace ns c
  handle now r (resource kind ns name) c = handle_resource kind ns name c
  handle now r stream c = upgrade
  handle now r health c = handle_health now r.ready c

  -- What the mux answers; a request that matches no pattern is not the API's.
  unfoldable pub serve_request : Time → Request → Collector F → Option (Answer F)
  unfolding route handle
  serve_request now r c = elim (route r) [ none ↦ none | some to ↦ some (handle now r to c) ]
