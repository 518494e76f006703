-- ===== src/Metrics/Descs.antt =====
-- metrics.go: the descriptions of the metrics, which `New` makes and `Describe` sends.
use pulsebox.Base.{String, List, [], ◌∷◌}

-- `prometheus.Desc`
pub record Desc : Type 0 where
  pub name : String
  pub labels : List String

abbrev desc : String → List String → Desc
desc name labels = record { name = name; labels = labels }

-- The descriptions that `New` makes.
abbrev pub node_ready : Desc
node_ready = desc "pulsebox_node_ready" ("node" ∷ [])

abbrev pub node_condition : Desc
node_condition = desc "pulsebox_node_condition" ("node" ∷ "condition" ∷ [])

abbrev pub pod_health : Desc
pod_health = desc "pulsebox_pod_health_status" ("namespace" ∷ "pod" ∷ "node" ∷ "phase" ∷ [])

abbrev pub pod_restarts : Desc
pod_restarts = desc "pulsebox_pod_container_restarts_total" ("namespace" ∷ "pod" ∷ "container" ∷ [])

abbrev pub pod_restart_rate : Desc
pod_restart_rate = desc "pulsebox_pod_restart_rate_per_minute" ("namespace" ∷ "pod" ∷ [])

abbrev pub workload_ready : Desc
workload_ready = desc "pulsebox_workload_replicas_ready" ("namespace" ∷ "kind" ∷ "name" ∷ [])

abbrev pub workload_desired : Desc
workload_desired = desc "pulsebox_workload_replicas_desired" ("namespace" ∷ "kind" ∷ "name" ∷ [])

abbrev pub volume_status : Desc
volume_status = desc "pulsebox_pv_status" ("pv" ∷ "phase" ∷ [])

abbrev pub claim_status : Desc
claim_status = desc "pulsebox_pvc_status" ("namespace" ∷ "pvc" ∷ "phase" ∷ [])

abbrev pub claim_pending : Desc
claim_pending = desc "pulsebox_pvc_pending_seconds" ("namespace" ∷ "pvc" ∷ [])

abbrev pub service_endpoints : Desc
service_endpoints = desc "pulsebox_service_endpoints_ready" ("namespace" ∷ "service" ∷ [])

abbrev pub namespace_score : Desc
namespace_score = desc "pulsebox_namespace_health_score" ("namespace" ∷ [])

abbrev pub cluster_score : Desc
cluster_score = desc "pulsebox_cluster_health_score" []

abbrev pub collector_synced : Desc
collector_synced = desc "pulsebox_collector_synced" []

-- `Describe`
unfoldable pub describe : List Desc
describe =
    node_ready ∷ node_condition ∷ pod_health ∷ pod_restarts ∷ pod_restart_rate ∷ workload_ready
    ∷ workload_desired ∷ volume_status ∷ claim_status ∷ claim_pending ∷ service_endpoints
    ∷ namespace_score ∷ cluster_score ∷ collector_synced ∷ []
