-- ===== src/Collector/Build/Scored.antt =====
-- graph.go: the scores that the loops of `buildGraph` over the other objects add.
use native.Mathlib.Nat.{add-zero}
use pulsebox.Base.{
  ℕ, suc, ◌+◌, length, not, List, [], ◌∷◌, ◌==◌, string_eq, Bool-cases, inl, inr, is_nil,
}
use pulsebox.Base.Int.{ℤ, Time, Duration}
use pulsebox.Base.Float.{Float, FloatLaws}
use pulsebox.K8s.{
  KubeNode, KubeVolume, KubeClaim, KubeService, KubeEndpoints, KubePod, KubeReplicaSet,
}
use pulsebox.Health.Nodes.Spec.{node-IsSound}
use pulsebox.Health.Pods.Verdicts.{pod-IsSound}
use pulsebox.Health.Storage.Verdicts.{pv-IsSound, pvc-IsSound}
use pulsebox.Health.Workloads.{service}
use pulsebox.Health.Workloads.Verdicts.{service-IsSound}
use pulsebox.Collector.Build.{Build, object_id, scored_node}
use pulsebox.Collector.Build.Lookups.{endpoints_for}
use pulsebox.Collector.Build.Storage.{
  build_node, build_nodes, build_volumes, build_claim, build_claims, build_service, build_services,
}
use pulsebox.Collector.Build.Pods.{add_pod, link_pod, PodsBuild, build_pod, build_pods}
use pulsebox.Collector.Build.Pods.{watch_pod}
use pulsebox.Collector.Build.Scores.{
  ScoresFit, add_node-ScoresFit, add_edge-ScoresFit, add_child-ScoresFit,
  add_cluster_child-ScoresFit, route_edges-ScoresFit, claim_edges-ScoresFit,
}
use pulsebox.Collector.Build.Counts.{add-suc-eq}

module _ {F : Type 0} ⦃fl : Float F⦄ (laws : FloatLaws fl) where
  build_node-ScoresFit :
      (n : KubeNode) (k : ℕ) (b : Build F) → ScoresFit k b → ScoresFit (suc k) (build_node n b)
  unfolding build_node scored_node
  build_node-ScoresFit n k b f =
      let u = (node-IsSound laws n).in_unit in
      add_edge-ScoresFit _ _ "contains" (suc k) _
        (add_node-ScoresFit _ (suc k) _ u (add_cluster_child-ScoresFit _ k b u f))

  pub build_nodes-ScoresFit :
      (ns : List KubeNode) (k : ℕ) (b : Build F)
      → ScoresFit k b
      → ScoresFit (k + length ns) (build_nodes ns b)
  unfolding build_nodes
  build_nodes-ScoresFit [] k b f = rw add-zero f
  build_nodes-ScoresFit (n ∷ rest) k b f =
      rw (add-suc-eq k (length rest))
        (build_nodes-ScoresFit rest (suc k) _ (build_node-ScoresFit n k b f))

  pub build_volumes-ScoresFit :
      (vs : List KubeVolume) (k : ℕ) (b : Build F)
      → ScoresFit k b
      → ScoresFit k (build_volumes vs b)
  unfolding build_volumes scored_node
  build_volumes-ScoresFit [] k b f = f
  build_volumes-ScoresFit (v ∷ rest) k b f =
      build_volumes-ScoresFit rest k _
        (add_node-ScoresFit _ k b (pv-IsSound laws v.phase).in_unit f)

  build_claim-ScoresFit :
      (now : Time) (grace : Duration) (c : KubeClaim) (k : ℕ) (b : Build F)
      → ScoresFit k b
      → ScoresFit (suc k) (build_claim now grace c b)
  unfolding build_claim scored_node
  build_claim-ScoresFit now grace c k b f =
      let u = (pvc-IsSound laws c.phase c.created_at now grace).in_unit in
      let bare =
        add_edge-ScoresFit _ _ "contains" (suc k) _
          (add_node-ScoresFit _ (suc k) _ u (add_child-ScoresFit c.namespace _ k b u f)) in
      elim (Bool-cases (c.volume_name == "")) [
        | inl e ↦ rw (e, build_claim) bare
        | inr e ↦ rw (e, build_claim) (add_edge-ScoresFit _ _ "backs" (suc k) _ bare)
      ]

  pub build_claims-ScoresFit :
      (now : Time) (grace : Duration) (cs : List KubeClaim) (k : ℕ) (b : Build F)
      → ScoresFit k b
      → ScoresFit (k + length cs) (build_claims now grace cs b)
  unfolding build_claims
  build_claims-ScoresFit now grace [] k b f = rw add-zero f
  build_claims-ScoresFit now grace (c ∷ rest) k b f =
      rw (add-suc-eq k (length rest))
        (build_claims-ScoresFit now grace rest (suc k) _ (build_claim-ScoresFit now grace c k b f))

  build_service-ScoresFit :
      (eps : List KubeEndpoints) (s : KubeService) (k : ℕ) (b : Build F)
      → ScoresFit k b
      → ScoresFit (suc k) (build_service eps s b)
  unfolding build_service scored_node
  build_service-ScoresFit eps s k b f =
      let (ready, targets) = endpoints_for eps s.namespace s.name in
      let here = object_id "Service" s.namespace s.name in
      let has = not (is_nil s.selector) in
      let u = (service-IsSound laws has ready).in_unit in
      route_edges-ScoresFit here s.namespace targets (suc k) _ (
        add_edge-ScoresFit (object_id "Namespace" "" s.namespace) here "contains" (suc k) _ (
          add_node-ScoresFit _ (suc k) _ u
            (add_child-ScoresFit s.namespace (service has ready) k b u f)))

  pub build_services-ScoresFit :
      (eps : List KubeEndpoints) (ss : List KubeService) (k : ℕ) (b : Build F)
      → ScoresFit k b
      → ScoresFit (k + length ss) (build_services eps ss b)
  unfolding build_services
  build_services-ScoresFit eps [] k b f = rw add-zero f
  build_services-ScoresFit eps (s ∷ rest) k b f =
      rw (add-suc-eq k (length rest))
        (build_services-ScoresFit eps rest (suc k) _ (build_service-ScoresFit eps s k b f))

  add_pod-ScoresFit :
      (p : KubePod) (rate : F) (total : ℤ) (k : ℕ) (b : Build F)
      → ScoresFit k b
      → ScoresFit (suc k) (add_pod p rate total b)
  unfolding add_pod scored_node
  add_pod-ScoresFit p rate total k b f =
      let u = (pod-IsSound laws p rate).in_unit in
      add_node-ScoresFit _ (suc k) _ u (add_child-ScoresFit p.namespace _ k b u f)

  link_pod-ScoresFit :
      (sets : List KubeReplicaSet) (p : KubePod) (k : ℕ) (b : Build F)
      → ScoresFit k b
      → ScoresFit k (link_pod sets p b)
  unfolding link_pod
  link_pod-ScoresFit sets p k b f =
      let parent = add_edge-ScoresFit _ _ "contains" k b f in
      elim (Bool-cases (p.node_name == "")) [
        | inl e ↦ rw (e, link_pod) (claim_edges-ScoresFit p p.claims k _ parent)
        | inr e ↦
            rw (e, link_pod)
              (claim_edges-ScoresFit p p.claims k _ (add_edge-ScoresFit _ _ "runs-on" k _ parent))
      ]

  build_pod-ScoresFit :
      (sets : List KubeReplicaSet) (now : Time) (p : KubePod) (k : ℕ) (s : PodsBuild F)
      → ScoresFit k s.build
      → ScoresFit (suc k) (build_pod sets now p s).build
  unfolding build_pod
  build_pod-ScoresFit sets now p k s f =
      let w = watch_pod now p s in
      link_pod-ScoresFit sets p (suc k) _ (add_pod-ScoresFit p w.pod_rate w.total k s.build f)

  pub build_pods-ScoresFit :
      (sets : List KubeReplicaSet) (now : Time) (ps : List KubePod) (k : ℕ) (s : PodsBuild F)
      → ScoresFit k s.build
      → ScoresFit (k + length ps) (build_pods sets now ps s).build
  unfolding build_pods
  build_pods-ScoresFit sets now [] k s f = rw add-zero f
  build_pods-ScoresFit sets now (p ∷ rest) k s f =
      rw (add-suc-eq k (length rest))
        (build_pods-ScoresFit sets now rest (suc k) _ (build_pod-ScoresFit sets now p k s f))
