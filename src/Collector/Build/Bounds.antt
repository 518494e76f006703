-- ===== src/Collector/Build/Bounds.antt =====
-- graph.go: the scores of all nodes of the graph that `buildGraph` returns.
use pulsebox.Base.{
  ℕ, suc, ◌+◌, ◌≤◌, length, String, Bool, true, false, List, [], ◌∷◌, arith, if◌then◌else◌,
  string_eq, All,
}
use pulsebox.Base.Int.{Time}
use pulsebox.Base.Dict.{Dict}
use pulsebox.Base.Float.{Float, FloatLaws, InUnit}
use pulsebox.K8s.{KubeNamespace}
use pulsebox.Health.Rollup.Mean.{aggregate-InUnit}
use pulsebox.Topology.{node_id}
use pulsebox.Collector.Restarts.{RestartTracker}
use pulsebox.Collector.Build.{Build, new_build, children_of, finish}
use pulsebox.Collector.Build.Kept.{All-sort}
use pulsebox.Collector.Build.Storage.{build_nodes, build_volumes}
use pulsebox.Collector.Build.Roots.{
  Caches, Config, cluster_scope, rolled_node, build_namespace, build_namespaces, build_cluster,
  build_below, build_with_pods, build_roots, build_graph,
}
use pulsebox.Collector.Build.Scores.{
  ScoresFit, new_build-ScoresFit, add_node-ScoresFit, add_edge-ScoresFit,
  add_cluster_child-ScoresFit,
}
use pulsebox.Collector.Build.Counts.{
  DeploymentCounts, StatefulSetCounts, DaemonSetCounts, build_deployments-ScoresFit,
  build_stateful_sets-ScoresFit, build_daemon_sets-ScoresFit,
}
use pulsebox.Collector.Build.Scored.{
  build_nodes-ScoresFit, build_volumes-ScoresFit, build_claims-ScoresFit, build_services-ScoresFit,
  build_pods-ScoresFit,
}

-- The objects that are scored, with the namespace of the namespaced mode.
abbrev pub below : Caches → ℕ
below c =
    length c.nodes
    + length c.deployments
    + length c.stateful_sets
    + length c.daemon_sets
    + length c.claims
    + length c.services
    + length c.pods

abbrev pub objects : Caches → ℕ
objects c = below c + length c.namespaces + 1

-- No workload has a negative count.
pub record CountsFit (c : Caches) : Type 0 where
  pub deployments : All DeploymentCounts c.deployments
  pub stateful_sets : All StatefulSetCounts c.stateful_sets
  pub daemon_sets : All DaemonSetCounts c.daemon_sets

module _ {F : Type 0} ⦃fl : Float F⦄ (laws : FloatLaws fl) where
  ScoresFit-le : (k j : ℕ) (b : Build F) → k ≤ j → ScoresFit k b → ScoresFit j b
  ScoresFit-le k j b h f = record {
    nodes = f.nodes;
    children = f.children;
    cluster = f.cluster;
    few_children = λ ns. omega (arith, f.few_children ns);
    few_cluster = omega (arith, f.few_cluster);
  }

  build_namespace-ScoresFit :
      (name : String) (meta : Dict String String) (k : ℕ) (b : Build F)
      → k ≤ 9007199254740992
      → ScoresFit k b
      → ScoresFit (suc k) (build_namespace name meta b)
  unfolding build_namespace rolled_node
  build_namespace-ScoresFit name meta k b small f =
      let u =
        aggregate-InUnit laws (children_of name b.ns_children) (f.children name)
          (omega (arith, f.few_children name)) in
      add_edge-ScoresFit _ _ "contains" (suc k) _
        (add_node-ScoresFit _ (suc k) _ u (add_cluster_child-ScoresFit _ k b u f))

  build_namespaces-ScoresFit :
      (ns : List KubeNamespace) (k : ℕ) (b : Build F)
      → k + length ns ≤ 9007199254740992
      → ScoresFit k b
      → ScoresFit (k + length ns) (build_namespaces ns b)
  unfolding build_namespaces
  build_namespaces-ScoresFit [] k b small f = ScoresFit-le k _ b (omega arith) f
  build_namespaces-ScoresFit (n ∷ rest) k b small f =
      ScoresFit-le (suc k + length rest) _ _ (omega arith) (
        build_namespaces-ScoresFit rest (suc k) _ (omega arith)
          (build_namespace-ScoresFit n.name _ k b (omega arith) f))

  namespaces-ScoresFit :
      (wide : Bool) (cfg : Config) (c : Caches) (k : ℕ) (b : Build F)
      → k + length c.namespaces + 1 ≤ 9007199254740992
      → ScoresFit k b
      → ScoresFit
          (k + length c.namespaces + 1)
          (if wide then build_namespaces c.namespaces b else build_namespace cfg.namespace [] b)
  namespaces-ScoresFit true cfg c k b small f =
      ScoresFit-le (k + length c.namespaces) _ _ (omega arith)
        (build_namespaces-ScoresFit c.namespaces k b (omega arith) f)
  namespaces-ScoresFit false cfg c k b small f =
      ScoresFit-le (suc k) _ _ (omega arith)
        (build_namespace-ScoresFit cfg.namespace [] k b (omega arith) f)

  build_roots-ScoresFit :
      (cfg : Config) (c : Caches) (k : ℕ) (b : Build F)
      → k + length c.namespaces + 1 ≤ 9007199254740992
      → ScoresFit k b
      → ScoresFit (k + length c.namespaces + 1) (build_roots cfg c b)
  unfolding build_roots build_cluster rolled_node
  build_roots-ScoresFit cfg c k b small f =
      let g = namespaces-ScoresFit (cluster_scope cfg) cfg c k b small f in
      let u = aggregate-InUnit laws _ g.cluster (omega (arith, g.few_cluster)) in
      add_node-ScoresFit _ _ _ u g

  wide-ScoresFit :
      (wide : Bool) (c : Caches)
      → ScoresFit (length c.nodes) (
          if wide
          then build_volumes c.volumes (build_nodes c.nodes (new_build {F = F}))
          else new_build)
  wide-ScoresFit true c = ScoresFit-le (0 + length c.nodes) _ _ (omega arith) (
      build_volumes-ScoresFit laws c.volumes _ _
        (build_nodes-ScoresFit laws c.nodes 0 new_build new_build-ScoresFit))
  wide-ScoresFit false c = ScoresFit-le 0 _ _ (omega arith) new_build-ScoresFit

  with_pods-ScoresFit :
      (cfg : Config) (c : Caches) (now : Time) (t : RestartTracker F)
      → CountsFit c
      → ScoresFit (below c) (build_with_pods cfg c now t).build
  unfolding build_with_pods build_below
  with_pods-ScoresFit cfg c now t counts = build_pods-ScoresFit laws c.replica_sets now c.pods _ _ (
      build_services-ScoresFit laws c.endpoints c.services _ _ (
        build_claims-ScoresFit laws now cfg.pvc_pending_grace c.claims _ _ (
          build_daemon_sets-ScoresFit laws c.daemon_sets _ _ counts.daemon_sets (
            build_stateful_sets-ScoresFit laws c.stateful_sets _ _ counts.stateful_sets (
              build_deployments-ScoresFit laws c.deployments _ _ counts.deployments
                (wide-ScoresFit (cluster_scope cfg) c))))))

  -- If no workload has a negative count, and the scored objects and the namespaces of the caches, with
  -- one more, are at most 2^53, then each node of a graph that is built has a score from 0 to 1, those
  -- of the namespaces and of the cluster included.
  pub build_graph-InUnit :
      (cfg : Config) (c : Caches) (now : Time) (t : RestartTracker F)
      → CountsFit c
      → objects c ≤ 9007199254740992
      → All (λ n. InUnit n.score) (build_graph cfg c now t).0.nodes
  unfolding build_graph finish
  build_graph-InUnit cfg c now t counts small =
      All-sort node_id (λ n. InUnit n.score) _
        (build_roots-ScoresFit cfg c (below c) _ small
          (with_pods-ScoresFit cfg c now t counts)).nodes
