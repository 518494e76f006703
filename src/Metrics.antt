-- ===== src/Metrics.antt =====
-- internal/metrics/metrics.go: the samples of a scrape, in the order in which `Collect` sends them.
-- The help texts of the descriptions are left out.
pub mod Descs
pub mod Labels
pub mod Series
pub mod Keys
pub mod Items
pub mod Distinct
pub mod Agreement
pub mod Values
use pulsebox.Base.{
  String, Bool, true, false, List, [], ◌∷◌, ◌++◌, Option, none, some, if◌then◌else◌, ◌==◌,
  string_eq,
}
use pulsebox.Base.Int.{ℤ, pos, Time, Duration, sub_time, quot, rem}
use pulsebox.Base.Dict.{Dict, put}
use pulsebox.Base.Float.{Float, lit}
use pulsebox.K8s.{
  NodeCondition, KubeNode, ContainerStatus, KubePod, KubeDeployment, KubeStatefulSet, KubeDaemonSet,
  KubeVolume, KubeClaim, KubeService,
}
use pulsebox.Health.{Result, pod_phase_value}
use pulsebox.Health.Pods.{pod}
use pulsebox.Health.Workloads.{desired_replicas}
use pulsebox.Topology.{Node, Graph, text_at}
use pulsebox.Metrics.Descs.{
  Desc, node_ready, node_condition, pod_health, pod_restarts, pod_restart_rate, workload_ready,
  workload_desired, volume_status, claim_status, claim_pending, service_endpoints, namespace_score,
  cluster_score, collector_synced,
}
use pulsebox.Collector.Stream.{snapshot}
use pulsebox.Collector.Access.{
  Collector, node_list, pod_list, volume_list, claim_list, service_list, deployment_list,
  stateful_set_list, daemon_set_list, ready_endpoints, restart_rate,
}

-- A constant metric: `counts` tells a counter from a gauge.
pub record Sample (F : Type 0) : Type 0 where
  pub desc : Desc
  pub counts : Bool
  pub value : F
  pub labels : List String

abbrev pub gauge : {F : Type 0} → Desc → F → List String → Sample F
gauge d v labels = record { desc = d; counts = false; value = v; labels = labels }

-- `conds`: the status of each type of condition, the last one where there are several.
unfoldable pub conditions_map : List NodeCondition → Dict String String → Dict String String
unfolding put
conditions_map [] m = m
conditions_map (c ∷ rest) m = conditions_map rest (put c.ctype c.status m)

module _ {F : Type 0} ⦃fl : Float F⦄ where
  -- A gauge that is 1 if a test holds, and 0 otherwise.
  unfoldable pub flag : Bool → F
  flag b = if b then lit 100 else lit 0

  condition_samples : String → Dict String String → List String → List (Sample F)
  unfolding flag
  condition_samples name conds [] = []
  condition_samples name conds (t ∷ rest) =
      gauge node_condition (flag (text_at t conds == "True")) (name ∷ t ∷ [])
      ∷ condition_samples name conds rest

  unfoldable pub node_samples : KubeNode → List (Sample F)
  unfolding flag conditions_map condition_samples
  node_samples n =
      let conds = conditions_map n.conditions [] in
      gauge node_ready (flag (text_at "Ready" conds == "True")) (n.name ∷ [])
      ∷ condition_samples n.name conds
          ("MemoryPressure" ∷ "DiskPressure" ∷ "PIDPressure" ∷ "NetworkUnavailable" ∷ [])

  -- A counter.
  abbrev pub restart_sample : KubePod → ContainerStatus → Sample F
  restart_sample p cs = record {
    desc = pod_restarts;
    counts = true;
    value = fl.of_int cs.restart_count;
    labels = p.namespace ∷ p.name ∷ cs.name ∷ [];
  }

  unfoldable pub restart_samples : KubePod → List ContainerStatus → List (Sample F)
  restart_samples p [] = []
  restart_samples p (cs ∷ rest) = restart_sample p cs ∷ restart_samples p rest

  -- The body of the loop over the pods.
  unfoldable pub pod_samples : Collector F → KubePod → List (Sample F)
  unfolding restart_rate pod pod_phase_value restart_samples
  pod_samples c p =
      let rate = restart_rate p.namespace p.name c in
      let res = pod p rate in
      gauge pod_health (pod_phase_value res.state)
        (p.namespace ∷ p.name ∷ p.node_name ∷ p.phase ∷ [])
      ∷ gauge pod_restart_rate rate (p.namespace ∷ p.name ∷ [])
      ∷ restart_samples p p.container_statuses

  -- The two gauges of a workload.
  unfoldable pub workload_samples : String → String → String → ℤ → ℤ → List (Sample F)
  workload_samples kind ns name ready desired =
      gauge workload_ready (fl.of_int ready) (ns ∷ kind ∷ name ∷ [])
      ∷ gauge workload_desired (fl.of_int desired) (ns ∷ kind ∷ name ∷ [])
      ∷ []

  unfoldable pub deployment_samples : KubeDeployment → List (Sample F)
  unfolding workload_samples
  deployment_samples d =
      workload_samples "Deployment" d.namespace d.name d.ready_replicas
        (desired_replicas d.replicas)

  unfoldable pub stateful_set_samples : KubeStatefulSet → List (Sample F)
  unfolding workload_samples
  stateful_set_samples s =
      workload_samples "StatefulSet" s.namespace s.name s.ready_replicas
        (desired_replicas s.replicas)

  unfoldable pub daemon_set_samples : KubeDaemonSet → List (Sample F)
  unfolding workload_samples
  daemon_set_samples ds =
      workload_samples "DaemonSet" ds.namespace ds.name ds.number_ready ds.desired_number_scheduled

  unfoldable pub volume_samples : KubeVolume → List (Sample F)
  volume_samples v = gauge volume_status (lit 100) (v.name ∷ v.phase ∷ []) ∷ []

  -- `d.Seconds()`: the whole seconds, and the rest over 1e9.
  unfoldable pub seconds : Duration → F
  unfolding quot rem
  seconds d =
      fl.add (fl.of_int (quot d 1000000000))
        (fl.div (fl.of_int (rem d 1000000000)) (fl.of_int (pos 1000000000)))

  unfoldable pub pending_seconds : Time → KubeClaim → F
  unfolding seconds sub_time
  pending_seconds now pvc =
      if pvc.phase == "Pending" then seconds (sub_time now pvc.created_at) else lit 0

  unfoldable pub claim_samples : Time → KubeClaim → List (Sample F)
  unfolding pending_seconds
  claim_samples now pvc =
      gauge claim_status (lit 100) (pvc.namespace ∷ pvc.name ∷ pvc.phase ∷ [])
      ∷ gauge claim_pending (pending_seconds now pvc) (pvc.namespace ∷ pvc.name ∷ [])
      ∷ []

  unfoldable pub service_samples : Collector F → KubeService → List (Sample F)
  unfolding ready_endpoints
  service_samples c svc =
      gauge service_endpoints (fl.of_int (pos (ready_endpoints svc.namespace svc.name c)))
        (svc.namespace ∷ svc.name ∷ [])
      ∷ []

  -- The switch on the kind of a node of the snapshot.
  unfoldable pub rollup_samples : Node F → List (Sample F)
  rollup_samples n =
      if n.kind == "Namespace"
      then gauge namespace_score n.score (n.name ∷ []) ∷ []
      else if n.kind == "Cluster"
      then gauge cluster_score n.score [] ∷ []
      else []

-- A loop whose body sends samples.
unfoldable pub each : {A F : Type 0} → (A → List (Sample F)) → List A → List (Sample F)
each samples [] = []
each samples (x ∷ xs) = samples x ++ each samples xs

-- What is sent by one loop after the other.
unfoldable pub flatten : {A : Type 0} → List (List A) → List A
flatten [] = []
flatten (xs ∷ rest) = xs ++ flatten rest

module _ {F : Type 0} ⦃fl : Float F⦄ where
  -- The loops of `Collect`, where `now` is the time at the claims.
  unfoldable pub metric_loops : Time → Collector F → List (List (Sample F))
  unfolding node_list node_samples pod_samples deployment_samples stateful_set_samples
      daemon_set_samples volume_list volume_samples claim_samples service_samples snapshot
      rollup_samples each
  metric_loops now c =
      each node_samples (node_list c)
      ∷ each (pod_samples c) (pod_list c)
      ∷ each deployment_samples (deployment_list c)
      ∷ each stateful_set_samples (stateful_set_list c)
      ∷ each daemon_set_samples (daemon_set_list c)
      ∷ each volume_samples (volume_list c)
      ∷ each (claim_samples now) (claim_list c)
      ∷ each (service_samples c) (service_list c)
      ∷ each rollup_samples (snapshot c.stream).nodes
      ∷ []

  unfoldable pub collect_metrics : Time → Collector F → List (Sample F)
  unfolding flag metric_loops flatten
  collect_metrics now c = gauge collector_synced (flag c.synced) [] ∷ flatten (metric_loops now c)
