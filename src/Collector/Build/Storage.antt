-- ===== src/Collector/Build/Storage.antt =====
-- graph.go: the nodes of nodes, volumes, claims and services.
use pulsebox.Base.{
  String, Bool, true, false, not, List, [], ◌∷◌, Option, none, some, if◌then◌else◌, ◌==◌, string_eq,
  show_nat, is_nil, join,
}
use pulsebox.Base.Int.{Time, Duration}
use pulsebox.Base.Dict.{Dict, lookup}
use pulsebox.Base.Float.{Float}
use pulsebox.K8s.{Quantity, KubeNode, KubeVolume, KubeClaim, KubeService, KubeEndpoints}
use pulsebox.Health.Nodes.{node}
use pulsebox.Health.Storage.{pv, pvc}
use pulsebox.Health.Workloads.{service}
use pulsebox.Collector.Build.{
  object_id, cluster_id, Build, add_node, add_edge, add_child, add_cluster_child, scored_node,
}
use pulsebox.Collector.Build.Meta.{put_if, node_gpu, node_roles, node_taints}
use pulsebox.Collector.Build.Lookups.{endpoints_for}

-- fmt.Sprintf("%t", b)
abbrev bool_text : Bool → String
bool_text true = "true"
bool_text false = "false"

unfoldable pub node_meta : KubeNode → Dict String String
unfolding node_gpu node_roles node_taints put_if join
node_meta n =
    let (gpu, gpu_count) = node_gpu n in
    let taints = node_taints n in
    put_if (not (taints == "")) "taints" taints (
      put_if (if gpu then not (gpu_count == "") else false) "gpuCount" gpu_count (
        put_if gpu "gpu" "true" (
          ("schedulable", bool_text (not n.unschedulable))
          ∷ ("kubelet", n.kubelet_version)
          ∷ ("roles", join "," (node_roles n))
          ∷ [])))

-- `if q, ok := capacity["storage"]; ok`
put_capacity : Dict String Quantity → Dict String String → Dict String String
unfolding lookup put_if
put_capacity capacity m = elim (lookup "storage" capacity) [
  | none ↦ m
  | some q ↦ put_if true "capacity" q.text m
]

put_class : Option String → Dict String String → Dict String String
unfolding put_if
put_class none m = m
put_class (some c) m = put_if true "storageClass" c m

unfoldable pub volume_meta : KubeVolume → Dict String String
unfolding put_capacity put_if
volume_meta v =
    put_capacity v.capacity (
      put_if (not (v.storage_class == "")) "storageClass" v.storage_class (("phase", v.phase) ∷ []))

unfoldable pub claim_meta : KubeClaim → Dict String String
unfolding put_capacity put_class
claim_meta c = put_capacity c.capacity (put_class c.storage_class (("phase", c.phase) ∷ []))

module _ {F : Type 0} where
  unfoldable pub route_edges : String → String → List String → Build F → Build F
  unfolding add_edge object_id
  route_edges src ns [] b = b
  route_edges src ns (pod ∷ rest) b =
      route_edges src ns rest (add_edge src (object_id "Pod" ns pod) "routes" b)

module _ {F : Type 0} ⦃fl : Float F⦄ where
  -- The body of the loop over the nodes.
  unfoldable pub build_node : KubeNode → Build F → Build F
  unfolding node node_meta add_cluster_child add_node scored_node add_edge object_id
  build_node n b =
      let res = node n in
      add_edge cluster_id (object_id "Node" "" n.name) "contains"
        (add_node (scored_node "Node" "" n.name res (node_meta n)) (add_cluster_child res b))

  unfoldable pub build_nodes : List KubeNode → Build F → Build F
  unfolding build_node
  build_nodes [] b = b
  build_nodes (n ∷ rest) b = build_nodes rest (build_node n b)

  unfoldable pub build_volumes : List KubeVolume → Build F → Build F
  unfolding pv volume_meta add_node scored_node
  build_volumes [] b = b
  build_volumes (v ∷ rest) b =
      build_volumes rest
        (add_node (scored_node "PersistentVolume" "" v.name (pv v.phase) (volume_meta v)) b)

  -- The body of the loop over the claims.
  unfoldable pub build_claim : Time → Duration → KubeClaim → Build F → Build F
  unfolding pvc claim_meta add_child add_node scored_node add_edge object_id
  build_claim now grace c b =
      let res = pvc c.phase c.created_at now grace in
      let here = object_id "PersistentVolumeClaim" c.namespace c.name in
      let b' = add_edge (object_id "Namespace" "" c.namespace) here "contains" (
        add_node (scored_node "PersistentVolumeClaim" c.namespace c.name res (claim_meta c))
          (add_child c.namespace res b)) in
      if not (c.volume_name == "")
      then add_edge here (object_id "PersistentVolume" "" c.volume_name) "backs" b'
      else b'

  unfoldable pub build_claims : Time → Duration → List KubeClaim → Build F → Build F
  unfolding build_claim
  build_claims now grace [] b = b
  build_claims now grace (c ∷ rest) b = build_claims now grace rest (build_claim now grace c b)

  -- The body of the loop over the services.
  unfoldable pub build_service : List KubeEndpoints → KubeService → Build F → Build F
  unfolding endpoints_for service add_child add_node scored_node add_edge object_id route_edges
  build_service eps s b =
      let (ready, targets) = endpoints_for eps s.namespace s.name in
      let res = service (not (is_nil s.selector)) ready in
      let here = object_id "Service" s.namespace s.name in
      let meta =
        ("type", s.stype) ∷ ("clusterIP", s.cluster_ip) ∷ ("endpoints", show_nat ready) ∷ [] in
      route_edges here s.namespace targets (
        add_edge (object_id "Namespace" "" s.namespace) here "contains" (
          add_node (scored_node "Service" s.namespace s.name res meta)
            (add_child s.namespace res b)))

  unfoldable pub build_services : List KubeEndpoints → List KubeService → Build F → Build F
  unfolding build_service
  build_services eps [] b = b
  build_services eps (s ∷ rest) b = build_services eps rest (build_service eps s b)
