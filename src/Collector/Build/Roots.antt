-- ===== src/Collector/Build/Roots.antt =====
-- graph.go: the nodes of namespaces and of the cluster, and `buildGraph` as a whole.
use pulsebox.Base.{String, Bool, List, [], ◌∷◌, if◌then◌else◌, ◌==◌, string_eq, concat}
use pulsebox.Base.Int.{Time, Duration}
use pulsebox.Base.Dict.{Dict}
use pulsebox.Base.Float.{Float}
use pulsebox.K8s.{
  KubeNode, KubeVolume, KubeDeployment, KubeStatefulSet, KubeDaemonSet, KubeClaim, KubeService,
  KubeEndpoints, KubePod, KubeReplicaSet, KubeNamespace,
}
use pulsebox.Health.{Result, state_text}
use pulsebox.Health.Rollup.{aggregate}
use pulsebox.Topology.{Node, Graph}
use pulsebox.Collector.Restarts.{RestartTracker, prune}
use pulsebox.Collector.Build.{
  object_id, cluster_id, Build, new_build, add_node, add_edge, add_cluster_child, children_of,
  finish,
}
use pulsebox.Collector.Build.Storage.{build_nodes, build_volumes, build_claims, build_services}
use pulsebox.Collector.Build.Workloads.{build_deployments, build_stateful_sets, build_daemon_sets}
use pulsebox.Collector.Build.Pods.{PodsBuild, build_pods}

-- What the informers' caches hold, as the listers return it. Outside the cluster-wide mode the first
-- three are not watched.
pub record Caches : Type 0 where
  pub nodes : List KubeNode
  pub volumes : List KubeVolume
  pub namespaces : List KubeNamespace
  pub deployments : List KubeDeployment
  pub stateful_sets : List KubeStatefulSet
  pub daemon_sets : List KubeDaemonSet
  pub replica_sets : List KubeReplicaSet
  pub claims : List KubeClaim
  pub services : List KubeService
  pub endpoints : List KubeEndpoints
  pub pods : List KubePod

pub record Config : Type 0 where
  pub namespace : String
  pub resync_period : Duration
  pub rebuild_debounce : Duration
  pub pvc_pending_grace : Duration

-- `clusterScope`: the mode, and with it which listers there are.
unfoldable pub cluster_scope : Config → Bool
cluster_scope cfg = cfg.namespace == ""

module _ {F : Type 0} where
  -- A node with a roll-up, whose reasons stay as they are.
  unfoldable pub rolled_node : String → String → String → Result F → Dict String String → Node F
  unfolding state_text
  rolled_node id kind name r meta = record {
    id = id;
    kind = kind;
    name = name;
    namespace = "";
    health = state_text r.state;
    score = r.score;
    reasons = r.reasons;
    meta = meta;
  }

module _ {F : Type 0} ⦃fl : Float F⦄ where
  unfoldable pub build_namespace : String → Dict String String → Build F → Build F
  unfolding aggregate children_of add_cluster_child add_node rolled_node add_edge object_id
  build_namespace name meta b =
      let res = aggregate (children_of name b.ns_children) in
      let here = object_id "Namespace" "" name in
      add_edge cluster_id here "contains"
        (add_node (rolled_node here "Namespace" name res meta) (add_cluster_child res b))

  unfoldable pub build_namespaces : List KubeNamespace → Build F → Build F
  unfolding build_namespace
  build_namespaces [] b = b
  build_namespaces (ns ∷ rest) b =
      build_namespaces rest (build_namespace ns.name (("phase", ns.phase) ∷ []) b)

  unfoldable pub build_cluster : Config → Build F → Build F
  unfolding aggregate cluster_scope add_node rolled_node
  build_cluster cfg b =
      let scope =
        if cluster_scope cfg then "cluster-wide" else concat ("namespace:" ∷ cfg.namespace ∷ []) in
      add_node
        (rolled_node cluster_id "Cluster" "cluster" (aggregate b.cluster_children)
          (("scope", scope) ∷ []))
        b

  -- From the first loop to the services.
  unfoldable pub build_below : Config → Caches → Time → Build F
  unfolding cluster_scope build_nodes build_volumes build_deployments build_stateful_sets
      build_daemon_sets build_claims build_services new_build
  build_below cfg c now =
      let wide =
        if cluster_scope cfg
        then build_volumes c.volumes (build_nodes c.nodes new_build)
        else new_build in
      build_services c.endpoints c.services (
        build_claims now cfg.pvc_pending_grace c.claims (
          build_daemon_sets c.daemon_sets
            (build_stateful_sets c.stateful_sets (build_deployments c.deployments wide))))

  -- What is built when the pods have been visited.
  unfoldable pub build_with_pods : Config → Caches → Time → RestartTracker F → PodsBuild F
  unfolding build_below build_pods
  build_with_pods cfg c now t =
      build_pods c.replica_sets now c.pods (record {
        build = build_below cfg c now;
        restarts = t;
        live_pods = [];
        live_containers = [];
      })

  unfoldable pub build_roots : Config → Caches → Build F → Build F
  unfolding build_cluster cluster_scope build_namespaces build_namespace
  build_roots cfg c b = build_cluster cfg (
      if cluster_scope cfg
      then build_namespaces c.namespaces b
      else build_namespace cfg.namespace [] b)

  -- `buildGraph`: the graph, and the restart tracker afterwards.
  unfoldable pub build_graph :
      Config → Caches → Time → RestartTracker F → Graph F × RestartTracker F
  unfolding build_with_pods prune build_roots finish
  build_graph cfg c now t =
      let s = build_with_pods cfg c now t in
      (finish now (build_roots cfg c s.build), prune s.live_pods s.live_containers s.restarts)
