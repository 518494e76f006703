-- ===== src/Collector/Build/Pods.antt =====
-- graph.go: the nodes of pods, and what they tell the restart tracker.
use pulsebox.Base.{
  String, true, not, List, [], ◌∷◌, Option, none, some, if◌then◌else◌, ◌==◌, string_eq, concat,
  show_int,
}
use pulsebox.Base.Int.{ℤ, pos, Time, add_int32}
use pulsebox.Base.Dict.{Dict}
use pulsebox.Base.Float.{Float, lit}
use pulsebox.K8s.{ContainerStatus, KubePod, KubeReplicaSet}
use pulsebox.Health.Pods.{pod}
use pulsebox.Collector.Restarts.{RestartTracker, observe, set_pod_rate}
use pulsebox.Collector.Build.{object_id, Build, add_node, add_edge, add_child, scored_node}
use pulsebox.Collector.Build.Meta.{put_if}
use pulsebox.Collector.Build.Lookups.{workload_id_for_pod}

-- The variables of the loop over the pods; the live keys list the members of the two sets.
pub record PodsBuild (F : Type 0) : Type 0 where
  pub build : Build F
  pub restarts : RestartTracker F
  pub live_pods : List String
  pub live_containers : List String

-- The variables of the loop over a pod's containers.
pub record Watched (F : Type 0) : Type 0 where
  pub tracker : RestartTracker F
  pub live : List String
  pub pod_rate : F
  pub total : ℤ

unfoldable pub pod_key : KubePod → String
pod_key p = concat (p.namespace ∷ "/" ∷ p.name ∷ [])

-- `Spec.Containers[0].Image`, where there is one.
put_image : List String → Dict String String → Dict String String
unfolding put_if
put_image [] m = m
put_image (image ∷ _) m = put_if true "image" image m

unfoldable pub pod_meta : KubePod → ℤ → Dict String String
unfolding put_image put_if
pod_meta p total = put_image p.images (
    put_if (not (p.node_name == "")) "node" p.node_name
      (("phase", p.phase) ∷ ("restarts", show_int total) ∷ []))

-- The owning workload if there is one, else the namespace.
parent_id : List KubeReplicaSet → KubePod → String
unfolding workload_id_for_pod object_id
parent_id sets p = elim (workload_id_for_pod sets p) [
  | some id ↦ id
  | none ↦ object_id "Namespace" "" p.namespace
]

module _ {F : Type 0} where
  unfoldable pub claim_edges : KubePod → List (Option String) → Build F → Build F
  unfolding add_edge object_id
  claim_edges p [] b = b
  claim_edges p (none ∷ rest) b = claim_edges p rest b
  claim_edges p (some claim ∷ rest) b = claim_edges p rest (
      add_edge (object_id "Pod" p.namespace p.name)
        (object_id "PersistentVolumeClaim" p.namespace claim) "mounts" b)

  -- The edges of a pod: its parent, its node and its claims.
  unfoldable pub link_pod : List KubeReplicaSet → KubePod → Build F → Build F
  unfolding add_edge parent_id object_id claim_edges
  link_pod sets p b =
      let here = object_id "Pod" p.namespace p.name in
      let b' = add_edge (parent_id sets p) here "contains" b in
      claim_edges p p.claims (
        if not (p.node_name == "")
        then add_edge here (object_id "Node" "" p.node_name) "runs-on" b'
        else b')

module _ {F : Type 0} ⦃fl : Float F⦄ where
  unfoldable pub watch : String → Time → List ContainerStatus → Watched F → Watched F
  unfolding observe add_int32
  watch key now [] w = w
  watch key now (cs ∷ rest) w =
      let ckey = concat (key ∷ "/" ∷ cs.name ∷ []) in
      let (t, r) = observe ckey cs.restart_count now w.tracker in
      watch key now rest (record {
        tracker = t;
        live = ckey ∷ w.live;
        pod_rate = if fl.lt w.pod_rate r then r else w.pod_rate;
        total = add_int32 w.total cs.restart_count;
      })

  -- The node of a pod, once its rate is known.
  unfoldable pub add_pod : KubePod → F → ℤ → Build F → Build F
  unfolding pod pod_meta add_child add_node scored_node
  add_pod p rate total b =
      let res = pod p rate in
      add_node (scored_node "Pod" p.namespace p.name res (pod_meta p total))
        (add_child p.namespace res b)

  -- The loop over the containers of a pod.
  unfoldable pub watch_pod : Time → KubePod → PodsBuild F → Watched F
  unfolding watch pod_key
  watch_pod now p s =
      watch (pod_key p) now p.container_statuses
        (record { tracker = s.restarts; live = s.live_containers; pod_rate = lit 0; total = pos 0 })

  -- The body of the loop over the pods.
  unfoldable pub build_pod : List KubeReplicaSet → Time → KubePod → PodsBuild F → PodsBuild F
  unfolding watch_pod set_pod_rate add_pod link_pod pod_key
  build_pod sets now p s =
      let w = watch_pod now p s in
      record {
        build = link_pod sets p (add_pod p w.pod_rate w.total s.build);
        restarts = set_pod_rate (pod_key p) w.pod_rate w.tracker;
        live_pods = pod_key p ∷ s.live_pods;
        live_containers = w.live;
      }

  unfoldable pub build_pods : List KubeReplicaSet → Time → List KubePod → PodsBuild F → PodsBuild F
  unfolding build_pod
  build_pods sets now [] s = s
  build_pods sets now (p ∷ rest) s = build_pods sets now rest (build_pod sets now p s)
