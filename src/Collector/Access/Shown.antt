-- ===== src/Collector/Access/Shown.antt =====
-- graph.go, `buildGraph`: every object of the caches has its node.
use pulsebox.Base.{
  String, List, [], ◌∷◌, ◌++◌, ◌≡◌, refl, subst, ◌==◌, string_eq, Bool-cases, inl, inr,
}
use pulsebox.Base.Int.{Time, Duration}
use pulsebox.Base.Dict.{Dict}
use pulsebox.Base.Float.{Float}
use pulsebox.K8s.{
  KubeNode, KubeVolume, KubeDeployment, KubeStatefulSet, KubeDaemonSet, KubeClaim, KubeService,
  KubeEndpoints, KubePod, KubeReplicaSet, KubeNamespace,
}
use pulsebox.Health.{Result}
use pulsebox.Health.Rollup.{aggregate}
use pulsebox.Topology.{Node}
use pulsebox.Collector.Scope.Kept.{In}
use pulsebox.Collector.Build.{
  add_child, add_cluster_child, Build, object_id, scored_node, add_node, add_edge, children_of,
}
use pulsebox.Collector.Build.Storage.{build_node, build_volumes, build_claim, build_service}
use pulsebox.Collector.Build.Workloads.{
  workload_node, build_workload, build_deployments, build_stateful_sets, build_daemon_sets,
}
use pulsebox.Collector.Build.Pods.{PodsBuild, add_pod, build_pod}
use pulsebox.Collector.Build.Lookups.{endpoints_for}
use pulsebox.Collector.Build.Roots.{rolled_node, build_namespace}
use pulsebox.Collector.Build.Closed.{Extends, Extends-refl, In-behind, route_edges-Extends}
use pulsebox.Collector.Build.Steps.{link_pod-Extends}
use pulsebox.Collector.Access.Resources.{
  Object, pod_object, node_object, namespace_object, deployment_object, stateful_set_object,
  daemon_set_object, service_object, claim_object, volume_object,
}
use pulsebox.Collector.Access.Resources.Found.{object_kind, object_name, object_namespace}

module _ {F : Type 0} where
  -- The node of an object.
  pub record IsNodeOf (o : Object) (n : Node F) : Type 0 where
    pub id_eq : n.id ≡ object_id (object_kind o) (object_namespace o) (object_name o)
    pub kind_eq : n.kind ≡ object_kind o
    pub namespace_eq : n.namespace ≡ object_namespace o
    pub name_eq : n.name ≡ object_name o

  abbrev pub HasNodeOf : Object → List (Node F) → Type 0
  HasNodeOf o nodes = (n : Node F) × In n nodes × IsNodeOf o n

  pub later : (o : Object) (b c : Build F) → Extends b c → HasNodeOf o b.nodes → HasNodeOf o c.nodes
  later o b c e (n, i, is) = (n, e.holds n i, is)

  -- A loop whose body adds the node of an object has added it at the end.
  pub loop-HasNodeOf :
      {A : Type 0} (object : A → Object) (body : A → Build F → Build F)
      (loop : List A → Build F → Build F) (x : A) (xs : List A) (b : Build F)
      → ((y : A) (ys : List A) (b : Build F) → loop (y ∷ ys) b ≡ loop ys (body y b))
      → ((ys : List A) (b : Build F) → Extends b (loop ys b))
      → ((y : A) (b : Build F) → HasNodeOf (object y) (body y b).nodes)
      → In x xs
      → HasNodeOf (object x) (loop xs b).nodes
  loop-HasNodeOf object body loop x [] b cons extends has i = elim i [ ]
  loop-HasNodeOf object body loop x (y ∷ ys) b cons extends has (inr i) =
      rw (cons y ys b) (loop-HasNodeOf object body loop x ys (body y b) cons extends has i)
  loop-HasNodeOf object body loop x (y ∷ ys) b cons extends has (inl e) = rw (cons y ys b) (
      later (object x) _ _ (extends ys (body y b))
        (subst (λ z. HasNodeOf (object z) (body y b).nodes) e (has y b)))

  -- What is added as a scored node.
  added :
      (o : Object) (r : Result F) (meta : Dict String String) (nodes : List (Node F))
      → HasNodeOf o
          (nodes ++ scored_node (object_kind o) (object_namespace o) (object_name o) r meta ∷ [])
  unfolding scored_node
  added o r meta nodes =
      let n = scored_node (object_kind o) (object_namespace o) (object_name o) r meta in
      (
        n,
        In-behind n nodes (n ∷ []) (inl refl),
        record { id_eq = refl; kind_eq = refl; namespace_eq = refl; name_eq = refl },
      )

module _ {F : Type 0} ⦃fl : Float F⦄ where
  pub node-shown : (n : KubeNode) (b : Build F) → HasNodeOf (node_object n) (build_node n b).nodes
  unfolding build_node add_edge add_node add_cluster_child
  node-shown n b = added (node_object n) _ _ _

  pub volume-shown :
      (v : KubeVolume) (b : Build F) → HasNodeOf (volume_object v) (build_volumes (v ∷ []) b).nodes
  unfolding build_volumes add_node
  volume-shown v b = added (volume_object v) _ _ _

  pub claim-shown :
      (now : Time) (grace : Duration) (c : KubeClaim) (b : Build F)
      → HasNodeOf (claim_object c) (build_claim now grace c b).nodes
  unfolding build_claim add_edge add_node add_child
  claim-shown now grace c b = elim (Bool-cases (c.volume_name == "")) [
    | inl e ↦ rw (e, build_claim) (added (claim_object c) _ _ _)
    | inr e ↦ rw (e, build_claim) (added (claim_object c) _ _ _)
  ]

  pub service-shown :
      (eps : List KubeEndpoints) (s : KubeService) (b : Build F)
      → HasNodeOf (service_object s) (build_service eps s b).nodes
  unfolding build_service add_edge add_node add_child
  service-shown eps s b =
      later (service_object s) _ _
        (route_edges-Extends _ _ (endpoints_for eps s.namespace s.name).1 _ _ (Extends-refl _))
        (added (service_object s) _ _ _)

  pub deployment-shown :
      (d : KubeDeployment) (b : Build F)
      → HasNodeOf (deployment_object d) (build_deployments (d ∷ []) b).nodes
  unfolding build_deployments build_workload workload_node add_edge add_node add_child
  deployment-shown d b = added (deployment_object d) _ _ _

  pub stateful_set-shown :
      (s : KubeStatefulSet) (b : Build F)
      → HasNodeOf (stateful_set_object s) (build_stateful_sets (s ∷ []) b).nodes
  unfolding build_stateful_sets build_workload workload_node add_edge add_node add_child
  stateful_set-shown s b = added (stateful_set_object s) _ _ _

  pub daemon_set-shown :
      (s : KubeDaemonSet) (b : Build F)
      → HasNodeOf (daemon_set_object s) (build_daemon_sets (s ∷ []) b).nodes
  unfolding build_daemon_sets build_workload workload_node add_edge add_node add_child
  daemon_set-shown s b = added (daemon_set_object s) _ _ _

  pub pod-shown :
      (sets : List KubeReplicaSet) (now : Time) (p : KubePod) (s : PodsBuild F)
      → HasNodeOf (pod_object p) (build_pod sets now p s).build.nodes
  unfolding build_pod add_pod add_node add_child
  pod-shown sets now p s =
      later (pod_object p) _ _ (link_pod-Extends sets p _) (added (pod_object p) _ _ _)

  pub namespace-shown :
      (ns : KubeNamespace) (b : Build F)
      → HasNodeOf (namespace_object ns) (build_namespace ns.name (("phase", ns.phase) ∷ []) b).nodes
  unfolding build_namespace rolled_node add_edge add_node add_cluster_child
  namespace-shown ns b =
      let here = object_id "Namespace" "" ns.name in
      let n =
        rolled_node here "Namespace" ns.name (aggregate (children_of ns.name b.ns_children))
          (("phase", ns.phase) ∷ []) in
      (
        n,
        In-behind n b.nodes (n ∷ []) (inl refl),
        record { id_eq = refl; kind_eq = refl; namespace_eq = refl; name_eq = refl },
      )
