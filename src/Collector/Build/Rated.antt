-- ===== src/Collector/Build/Rated.antt =====
-- graph.go: the restart rate that the tracker keeps for a pod is the one that its node is scored with.
use pulsebox.Base.{
  String, Bool, true, false, ◌||◌, List, [], ◌∷◌, ◌≡◌, ◌∙◌, refl, arith, if◌then◌else◌, ◌==◌,
  string_eq, elem, map, sym, eq_self, subst, ap, inl, inr,
}
use pulsebox.Base.Int.{pos, Time}
use pulsebox.Base.Dict.{Dict, lookup-put}
use pulsebox.Base.Float.{Float, lit}
use pulsebox.K8s.{ContainerStatus, KubePod, KubeReplicaSet}
use pulsebox.Health.Pods.{pod}
use pulsebox.Topology.{Node}
use pulsebox.Collector.Restarts.{RestartTracker, observe, set_pod_rate, pod_rate}
use pulsebox.Collector.Restarts.Rates.{prune-rates}
use pulsebox.Collector.Scope.Kept.{In}
use pulsebox.Collector.Build.{scored_node, add_child, finish}
use pulsebox.Collector.Build.Pods.{
  PodsBuild, Watched, pod_key, pod_meta, watch, watch_pod, add_pod, build_pod, build_pods,
}
use pulsebox.Collector.Build.Roots.{Caches, Config, build_with_pods, build_roots, build_graph}
use pulsebox.Collector.Build.Closed.{In-add_node}
use pulsebox.Collector.Build.Steps.{link_pod-Extends, build_pods-Extends}
use pulsebox.Collector.Build.Kept.{Once, In-sort}
use pulsebox.Collector.Build.Whole.{build_roots-Extends, with_pods-live}

elem-map-In : (p : KubePod) (ps : List KubePod) → In p ps → elem (pod_key p) (map pod_key ps) ≡ true
elem-map-In p [] i = elim i [ ]
elem-map-In p (q ∷ ps) (inl e) = rw (e, eq_self (pod_key p)) refl
elem-map-In p (q ∷ ps) (inr i) = ground (arith, elem-map-In p ps i)

module _ {F : Type 0} ⦃fl : Float F⦄ where
  pod_rate-set :
      (key name : String) (rate : F) (t : RestartTracker F)
      → pod_rate key (set_pod_rate name rate t) ≡ (if name == key then rate else pod_rate key t)
  unfolding pod_rate set_pod_rate
  pod_rate-set key name rate t = ground (arith, lookup-put name key rate t.pod_rates)

  pod_rate-watch :
      (key ckey : String) (now : Time) (css : List ContainerStatus) (w : Watched F)
      → pod_rate key (watch ckey now css w).tracker ≡ pod_rate key w.tracker
  unfolding watch observe pod_rate
  pod_rate-watch key ckey now [] w = refl
  pod_rate-watch key ckey now (cs ∷ rest) w = pod_rate-watch key ckey now rest _

  pod_rate-build_pod :
      (sets : List KubeReplicaSet) (now : Time) (p : KubePod) (s : PodsBuild F) (key : String)
      → pod_rate key (build_pod sets now p s).restarts
        ≡ (if pod_key p == key then (watch_pod now p s).pod_rate else pod_rate key s.restarts)
  unfolding build_pod watch_pod
  pod_rate-build_pod sets now p s key =
      let w = watch_pod now p s in
      pod_rate-set key (pod_key p) w.pod_rate w.tracker
      ∙ ap (λ r. if pod_key p == key then w.pod_rate else r)
          (pod_rate-watch key (pod_key p) now p.container_statuses _)

  -- A pod whose key is not among those that are visited keeps its rate.
  pod_rate-build_pods :
      (sets : List KubeReplicaSet) (now : Time) (ps : List KubePod) (s : PodsBuild F) (key : String)
      → elem key (map pod_key ps) ≡ false
      → pod_rate key (build_pods sets now ps s).restarts ≡ pod_rate key s.restarts
  unfolding build_pods
  pod_rate-build_pods sets now [] s key h = refl
  pod_rate-build_pods sets now (p ∷ rest) s key h =
      let (other, later) = or-false (pod_key p == key) (elem key (map pod_key rest)) h in
      pod_rate-build_pods sets now rest (build_pod sets now p s) key later
      ∙ pod_rate-build_pod sets now p s key
      ∙ ap (λ b. if b then (watch_pod now p s).pod_rate else pod_rate key s.restarts) other
    where
      or-false : (a b : Bool) → (a || b) ≡ false → (a ≡ false) × (b ≡ false)
      or-false a b h = ground arith

  -- A node for the pod, scored with a rate.
  abbrev pub IsScored : KubePod → F → List (Node F) → Type 0
  IsScored p rate nodes =
      (meta : Dict String String) × In (scored_node "Pod" p.namespace p.name (pod p rate) meta)
        nodes

  build_pod-IsScored :
      (sets : List KubeReplicaSet) (now : Time) (p : KubePod) (s : PodsBuild F)
      → IsScored p
          (pod_rate (pod_key p) (build_pod sets now p s).restarts)
          (build_pod sets now p s).build.nodes
  unfolding build_pod add_pod
  build_pod-IsScored sets now p s =
      let w = watch_pod now p s in
      let rated = pod_rate-build_pod sets now p s (pod_key p) in
      let n = scored_node "Pod" p.namespace p.name (pod p w.pod_rate) (pod_meta p w.total) in
      subst (λ r. IsScored p r (build_pod sets now p s).build.nodes)
        (sym (
          rated
          ∙ ap (λ b. if b then w.pod_rate else pod_rate (pod_key p) s.restarts)
              (eq_self (pod_key p))))
        (
          pod_meta p w.total,
          (link_pod-Extends sets p _).holds n
              (In-add_node n (add_child p.namespace (pod p w.pod_rate) s.build)),
        )

  -- Each visited pod has a node that is scored with the rate that the tracker has at the end.
  build_pods-IsScored :
      (sets : List KubeReplicaSet) (now : Time) (ps : List KubePod) (s : PodsBuild F) (p : KubePod)
      → Once (map pod_key ps)
      → In p ps
      → IsScored p
          (pod_rate (pod_key p) (build_pods sets now ps s).restarts)
          (build_pods sets now ps s).build.nodes
  unfolding build_pods
  build_pods-IsScored sets now [] s p o i = elim i [ ]
  build_pods-IsScored sets now (q ∷ rest) s p o (inr i) =
      build_pods-IsScored sets now rest (build_pod sets now q s) p o.1 i
  build_pods-IsScored sets now (q ∷ rest) s p o (inl e) =
      let s' = build_pod sets now q s in
      let (meta, i) = build_pod-IsScored sets now q s in
      let held = (build_pods-Extends sets now rest s').holds _ i in
      let kept = pod_rate-build_pods sets now rest s' (pod_key q) o.0 in
      subst
        (λ z.
          IsScored z (pod_rate (pod_key z) (build_pods sets now rest s').restarts)
            (build_pods sets now rest s').build.nodes)
        e
        (subst (λ r. IsScored q r (build_pods sets now rest s').build.nodes) (sym kept)
          (meta, held))

  -- If no two pods of the cache have the same key, each has a node in the graph that is built, which
  -- has the verdict of `Pod` at the rate that the tracker gives for the pod afterwards.
  pub build_graph-IsScored :
      (cfg : Config) (c : Caches) (now : Time) (t : RestartTracker F) (p : KubePod)
      → Once (map pod_key c.pods)
      → In p c.pods
      → IsScored p
          (pod_rate (pod_key p) (build_graph cfg c now t).1)
          (build_graph cfg c now t).0.nodes
  unfolding build_graph build_with_pods finish
  build_graph-IsScored cfg c now t p o i =
      let s = build_with_pods cfg c now t in
      let (meta, k) = build_pods-IsScored c.replica_sets now c.pods _ p o i in
      let live = with_pods-live cfg c now t (pod_key p) ∙ elem-map-In p c.pods i in
      let kept =
        (prune-rates s.live_pods s.live_containers s.restarts (pod_key p) (pos 0) now).0
        ∙ ap (λ b. if b then pod_rate (pod_key p) s.restarts else lit 0) live in
      let b = build_roots cfg c s.build in
      subst (λ r. IsScored p r (finish now b).nodes) (sym kept)
        (meta, In-sort _ _ b.nodes ((build_roots-Extends cfg c _).holds _ k))
