-- ===== src/Collector/Build/Workloads.antt =====
-- graph.go: `workloadNode`, and the nodes of Deployments, StatefulSets and DaemonSets.
use pulsebox.Base.{String, List, [], ◌∷◌, concat, show_int}
use pulsebox.Base.Int.{ℤ}
use pulsebox.Base.Float.{Float}
use pulsebox.K8s.{KubeDeployment, KubeStatefulSet, KubeDaemonSet}
use pulsebox.Health.{Result}
use pulsebox.Health.Workloads.{desired_replicas, deployment, stateful_set, daemon_set}
use pulsebox.Topology.{Node}
use pulsebox.Collector.Build.{object_id, Build, add_node, add_edge, add_child, scored_node}

module _ {F : Type 0} where
  unfoldable pub workload_node : String → String → String → Result F → ℤ → ℤ → Node F
  unfolding scored_node
  workload_node kind ns name res ready desired =
      scored_node kind ns name res
        (("ready", concat (show_int ready ∷ "/" ∷ show_int desired ∷ [])) ∷ [])

  -- What the three loops do with a workload that has been scored.
  unfoldable pub build_workload : String → String → String → Result F → ℤ → ℤ → Build F → Build F
  unfolding workload_node add_child add_node add_edge object_id
  build_workload kind ns name res ready desired b =
      add_edge (object_id "Namespace" "" ns) (object_id kind ns name) "contains"
        (add_node (workload_node kind ns name res ready desired) (add_child ns res b))

module _ {F : Type 0} ⦃fl : Float F⦄ where
  unfoldable pub build_deployments : List KubeDeployment → Build F → Build F
  unfolding build_workload deployment
  build_deployments [] b = b
  build_deployments (d ∷ rest) b = build_deployments rest (
      build_workload "Deployment" d.namespace d.name (deployment d) d.ready_replicas
        (desired_replicas d.replicas) b)

  unfoldable pub build_stateful_sets : List KubeStatefulSet → Build F → Build F
  unfolding build_workload stateful_set
  build_stateful_sets [] b = b
  build_stateful_sets (s ∷ rest) b = build_stateful_sets rest (
      build_workload "StatefulSet" s.namespace s.name (stateful_set s) s.ready_replicas
        (desired_replicas s.replicas) b)

  unfoldable pub build_daemon_sets : List KubeDaemonSet → Build F → Build F
  unfolding build_workload daemon_set
  build_daemon_sets [] b = b
  build_daemon_sets (d ∷ rest) b = build_daemon_sets rest (
      build_workload "DaemonSet" d.namespace d.name (daemon_set d) d.number_ready
        d.desired_number_scheduled b)
