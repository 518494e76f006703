-- ===== src/Collector/Build/Steps.antt =====
-- graph.go: the loops of `buildGraph`, each as a later stage of what is built.
use pulsebox.Base.{
  String, true, not, List, [], ◌∷◌, ◌≡◌, ◌==◌, string_eq, elem, is_nil, Bool-cases, inl, inr,
}
use pulsebox.Base.Int.{ℤ, Time, Duration}
use pulsebox.Base.Dict.{Dict}
use pulsebox.Base.Float.{Float}
use pulsebox.K8s.{
  KubeNode, KubeVolume, KubeDeployment, KubeStatefulSet, KubeDaemonSet, KubeClaim, KubeService,
  KubeEndpoints, KubePod, KubeReplicaSet, KubeNamespace,
}
use pulsebox.Collector.Build.{Build, object_id, add_child, scored_node}
use pulsebox.Collector.Build.Storage.{
  build_node, build_nodes, build_volumes, build_claim, build_claims, build_service, build_services,
}
use pulsebox.Collector.Build.Workloads.{build_deployments, build_stateful_sets, build_daemon_sets}
use pulsebox.Collector.Build.Lookups.{endpoints_for}
use pulsebox.Health.Workloads.{service}
use pulsebox.Health.Pods.{pod}
use pulsebox.Collector.Build.Pods.{
  watch_pod, pod_meta, add_pod, link_pod, PodsBuild, build_pod, build_pods,
}
use pulsebox.Collector.Build.Roots.{Config, build_namespace, build_namespaces, build_cluster}
use pulsebox.Collector.Build.Closed.{
  Extends, Extends-refl, Extends-trans, add_node-Extends, elem-add_node, add_edge-Extends,
  add_child-Extends, add_cluster_child-Extends, route_edges-Extends, claim_edges-Extends,
  build_workload-Extends,
}

module _ {F : Type 0} ⦃fl : Float F⦄ where
  pub build_node-Extends : (n : KubeNode) (b : Build F) → Extends b (build_node n b)
  unfolding build_node
  build_node-Extends n b =
      add_edge-Extends _ _ "contains" b _ (add_node-Extends _ b _ (add_cluster_child-Extends _ b))

  pub build_nodes-Extends : (ns : List KubeNode) (b : Build F) → Extends b (build_nodes ns b)
  unfolding build_nodes
  build_nodes-Extends [] b = Extends-refl b
  build_nodes-Extends (n ∷ rest) b =
      Extends-trans b _ _ (build_node-Extends n b) (build_nodes-Extends rest _)

  pub build_volumes-Extends : (vs : List KubeVolume) (b : Build F) → Extends b (build_volumes vs b)
  unfolding build_volumes
  build_volumes-Extends [] b = Extends-refl b
  build_volumes-Extends (v ∷ rest) b =
      Extends-trans b _ _ (add_node-Extends _ b b (Extends-refl b)) (build_volumes-Extends rest _)

  pub build_claim-Extends :
      (now : Time) (grace : Duration) (c : KubeClaim) (b : Build F)
      → Extends b (build_claim now grace c b)
  unfolding build_claim
  build_claim-Extends now grace c b =
      let bare =
        add_edge-Extends _ _ "contains" b _
          (add_node-Extends _ b _ (add_child-Extends c.namespace _ b)) in
      elim (Bool-cases (c.volume_name == "")) [
        | inl e ↦ rw (e, build_claim) bare
        | inr e ↦ rw (e, build_claim) (add_edge-Extends _ _ "backs" b _ bare)
      ]

  pub build_claims-Extends :
      (now : Time) (grace : Duration) (cs : List KubeClaim) (b : Build F)
      → Extends b (build_claims now grace cs b)
  unfolding build_claims
  build_claims-Extends now grace [] b = Extends-refl b
  build_claims-Extends now grace (c ∷ rest) b =
      Extends-trans b _ _ (build_claim-Extends now grace c b)
        (build_claims-Extends now grace rest _)

  pub build_service-Extends :
      (eps : List KubeEndpoints) (s : KubeService) (b : Build F) → Extends b (build_service eps s b)
  unfolding build_service
  build_service-Extends eps s b =
      let (ready, targets) = endpoints_for eps s.namespace s.name in
      let here = object_id "Service" s.namespace s.name in
      let res = service (not (is_nil s.selector)) ready in
      route_edges-Extends here s.namespace targets b _ (
        add_edge-Extends (object_id "Namespace" "" s.namespace) here "contains" b _
          (add_node-Extends _ b _ (add_child-Extends s.namespace res b)))

  pub build_services-Extends :
      (eps : List KubeEndpoints) (ss : List KubeService) (b : Build F)
      → Extends b (build_services eps ss b)
  unfolding build_services
  build_services-Extends eps [] b = Extends-refl b
  build_services-Extends eps (s ∷ rest) b =
      Extends-trans b _ _ (build_service-Extends eps s b) (build_services-Extends eps rest _)

  pub build_deployments-Extends :
      (ds : List KubeDeployment) (b : Build F) → Extends b (build_deployments ds b)
  unfolding build_deployments
  build_deployments-Extends [] b = Extends-refl b
  build_deployments-Extends (d ∷ rest) b =
      Extends-trans b _ _ (build_workload-Extends "Deployment" _ _ _ _ _ b)
        (build_deployments-Extends rest _)

  pub build_stateful_sets-Extends :
      (ss : List KubeStatefulSet) (b : Build F) → Extends b (build_stateful_sets ss b)
  unfolding build_stateful_sets
  build_stateful_sets-Extends [] b = Extends-refl b
  build_stateful_sets-Extends (s ∷ rest) b =
      Extends-trans b _ _ (build_workload-Extends "StatefulSet" _ _ _ _ _ b)
        (build_stateful_sets-Extends rest _)

  pub build_daemon_sets-Extends :
      (ds : List KubeDaemonSet) (b : Build F) → Extends b (build_daemon_sets ds b)
  unfolding build_daemon_sets
  build_daemon_sets-Extends [] b = Extends-refl b
  build_daemon_sets-Extends (d ∷ rest) b =
      Extends-trans b _ _ (build_workload-Extends "DaemonSet" _ _ _ _ _ b)
        (build_daemon_sets-Extends rest _)

  pub add_pod-Extends :
      (p : KubePod) (rate : F) (total : ℤ) (b : Build F) → Extends b (add_pod p rate total b)
  unfolding add_pod
  add_pod-Extends p rate total b = add_node-Extends _ b _ (add_child-Extends p.namespace _ b)

  elem-add_pod :
      (p : KubePod) (rate : F) (total : ℤ) (b : Build F)
      → elem (object_id "Pod" p.namespace p.name) (add_pod p rate total b).exists ≡ true
  unfolding add_pod scored_node
  elem-add_pod p rate total b =
      elem-add_node (scored_node "Pod" p.namespace p.name (pod p rate) (pod_meta p total))
        (add_child p.namespace (pod p rate) b)

  pub link_pod-Extends :
      (sets : List KubeReplicaSet) (p : KubePod) (b : Build F) → Extends b (link_pod sets p b)
  unfolding link_pod
  link_pod-Extends sets p b =
      let parent = add_edge-Extends _ _ "contains" b b (Extends-refl b) in
      elim (Bool-cases (p.node_name == "")) [
        | inl e ↦ rw (e, link_pod) (claim_edges-Extends p p.claims b _ parent)
        | inr e ↦
            rw (e, link_pod)
              (claim_edges-Extends p p.claims b _ (add_edge-Extends _ _ "runs-on" b _ parent))
      ]

  pub build_pod-Extends :
      (sets : List KubeReplicaSet) (now : Time) (p : KubePod) (s : PodsBuild F)
      → Extends s.build (build_pod sets now p s).build
  unfolding build_pod
  build_pod-Extends sets now p s =
      Extends-trans s.build _ _ (add_pod-Extends p _ _ s.build) (link_pod-Extends sets p _)

  -- A pod that has been visited has a node.
  pub elem-build_pod :
      (sets : List KubeReplicaSet) (now : Time) (p : KubePod) (s : PodsBuild F)
      → elem (object_id "Pod" p.namespace p.name) (build_pod sets now p s).build.exists ≡ true
  unfolding build_pod
  elem-build_pod sets now p s =
      let w = watch_pod now p s in
      (link_pod-Extends sets p _).keeps _ (elem-add_pod p w.pod_rate w.total s.build)

  pub build_pods-Extends :
      (sets : List KubeReplicaSet) (now : Time) (ps : List KubePod) (s : PodsBuild F)
      → Extends s.build (build_pods sets now ps s).build
  unfolding build_pods
  build_pods-Extends sets now [] s = Extends-refl s.build
  build_pods-Extends sets now (p ∷ rest) s =
      Extends-trans s.build _ _ (build_pod-Extends sets now p s)
        (build_pods-Extends sets now rest _)

  pub build_namespace-Extends :
      (name : String) (meta : Dict String String) (b : Build F)
      → Extends b (build_namespace name meta b)
  unfolding build_namespace
  build_namespace-Extends name meta b =
      add_edge-Extends _ _ "contains" b _ (add_node-Extends _ b _ (add_cluster_child-Extends _ b))

  pub build_namespaces-Extends :
      (ns : List KubeNamespace) (b : Build F) → Extends b (build_namespaces ns b)
  unfolding build_namespaces
  build_namespaces-Extends [] b = Extends-refl b
  build_namespaces-Extends (n ∷ rest) b =
      Extends-trans b _ _ (build_namespace-Extends n.name _ b) (build_namespaces-Extends rest _)

  pub build_cluster-Extends : (cfg : Config) (b : Build F) → Extends b (build_cluster cfg b)
  unfolding build_cluster
  build_cluster-Extends cfg b = add_node-Extends _ b b (Extends-refl b)
