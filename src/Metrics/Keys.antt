-- ===== src/Metrics/Keys.antt =====
-- metrics.go: which loop of `Collect` sends a series, and for which object.
use pulsebox.Base.{ℕ, String, ◌||◌, List, [], ◌∷◌, if◌then◌else◌, ◌==◌, string_eq, take}
use pulsebox.Topology.{Node}

-- The loop of `Collect` that sends a series; the workloads are told apart by the label of the kind.
unfoldable pub kind_number : List String → ℕ
kind_number (ns ∷ kind ∷ rest) =
    if kind == "Deployment" then 3 else if kind == "StatefulSet" then 4 else 5
kind_number _ = 3

unfoldable pub loop_number : String → List String → ℕ
unfolding kind_number
loop_number name labels =
    if name == "pulsebox_collector_synced"
    then 0
    else if name == "pulsebox_node_ready" || name == "pulsebox_node_condition"
    then 1
    else if name == "pulsebox_pod_health_status"
        || name == "pulsebox_pod_container_restarts_total"
        || name == "pulsebox_pod_restart_rate_per_minute"
    then 2
    else if name == "pulsebox_workload_replicas_ready"
        || name == "pulsebox_workload_replicas_desired"
    then kind_number labels
    else if name == "pulsebox_pv_status"
    then 6
    else if name == "pulsebox_pvc_status" || name == "pulsebox_pvc_pending_seconds"
    then 7
    else if name == "pulsebox_service_endpoints_ready"
    then 8
    else 9

-- The first labels of a series, and the namespace and name of a workload's.
unfoldable pub first_labels : ℕ → String → List String → List String
first_labels n name labels = take n labels

unfoldable pub workload_labels : String → List String → List String
workload_labels name (ns ∷ kind ∷ rest) = ns ∷ rest
workload_labels name _ = []

unfoldable pub rollup_labels : String → List String → List String
rollup_labels name labels =
    if name == "pulsebox_namespace_health_score" then "Namespace" ∷ labels else "Cluster" ∷ []

-- The key of a node of the graph, as far as roll-ups are sent: for a namespace its name.
abbrev pub rollup_key : {F : Type 0} → Node F → List String
rollup_key n =
    if n.kind == "Namespace"
    then "Namespace" ∷ n.name ∷ []
    else if n.kind == "Cluster"
    then "Cluster" ∷ []
    else n.kind ∷ n.id ∷ []
