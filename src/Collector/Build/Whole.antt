-- ===== src/Collector/Build/Whole.antt =====
-- graph.go: the graph that `buildGraph` returns, and the restart tracker that it leaves.
use pulsebox.Base.{
  String, Bool, true, false, ◌||◌, List, [], ◌∷◌, ◌≡◌, refl, subst, arith, if◌then◌else◌, string_eq,
  elem, map, All, Bool-cases, inl, inr, less_text,
}
use pulsebox.Base.Int.{pos, Time}
use pulsebox.Base.Sort.{sort, IsSorted}
use pulsebox.Base.Float.{Float, lit}
use pulsebox.K8s.{KubePod, KubeReplicaSet}
use pulsebox.Topology.{Edge, node_id, edge_id}
use pulsebox.Collector.Restarts.{RestartTracker, pod_rate}
use pulsebox.Collector.Restarts.Rates.{prune-rates}
use pulsebox.Collector.Scope.{namespace_snapshot}
use pulsebox.Collector.Scope.Kept.{HasNode, IsClosed, In, scoped-IsClosed}
use pulsebox.Collector.Build.{Build, object_id, new_build, keep_edges, finish}
use pulsebox.Collector.Build.Storage.{build_services, build_claims}
use pulsebox.Collector.Build.Workloads.{build_daemon_sets, build_stateful_sets, build_deployments}
use pulsebox.Collector.Build.Pods.{PodsBuild, pod_key, build_pod, build_pods}
use pulsebox.Collector.Build.Roots.{
  Caches, Config, cluster_scope, build_below, build_with_pods, build_roots, build_graph,
  build_namespaces, build_namespace,
}
use pulsebox.Collector.Build.Closed.{IsListed, Extends, Extends-refl, Extends-trans}
use pulsebox.Collector.Build.Steps.{
  build_nodes-Extends, build_volumes-Extends, build_claims-Extends, build_services-Extends,
  build_deployments-Extends, build_stateful_sets-Extends, build_daemon_sets-Extends, elem-build_pod,
  build_pods-Extends, build_namespace-Extends, build_namespaces-Extends, build_cluster-Extends,
}
use pulsebox.Collector.Build.Kept.{
  Once, map-sort, sort-key-IsSorted, All-sort, elem-sort, Once-sort, EndsIn, keep_edges-EndsIn,
  keep_edges-Once,
}

module _ {F : Type 0} ⦃fl : Float F⦄ where
  build_below-Extends :
      (cfg : Config) (c : Caches) (now : Time) → Extends {F = F} new_build (build_below cfg c now)
  unfolding build_below
  build_below-Extends cfg c now = elim (Bool-cases (cluster_scope cfg)) [
    | inl e ↦
        rw (e, build_below)
          (workloads _ (
            Extends-trans _ _ _ (build_nodes-Extends c.nodes new_build)
              (build_volumes-Extends c.volumes _)))
    | inr e ↦ rw (e, build_below) (workloads new_build (Extends-refl new_build))
  ]
    where
      workloads :
          (b : Build F)
          → Extends new_build b
          → Extends new_build (
              build_services c.endpoints c.services (
                build_claims now cfg.pvc_pending_grace c.claims (
                  build_daemon_sets c.daemon_sets
                    (build_stateful_sets c.stateful_sets (build_deployments c.deployments b)))))
      workloads b p = Extends-trans _ _ _ p (
          Extends-trans _ _ _ (build_deployments-Extends c.deployments b) (
            Extends-trans _ _ _ (build_stateful_sets-Extends c.stateful_sets _) (
              Extends-trans _ _ _ (build_daemon_sets-Extends c.daemon_sets _) (
                Extends-trans _ _ _ (build_claims-Extends now cfg.pvc_pending_grace c.claims _)
                  (build_services-Extends c.endpoints c.services _)))))

  namespaces-Extends :
      (wide : Bool) (cfg : Config) (c : Caches) (b : Build F)
      → Extends b
          (if wide then build_namespaces c.namespaces b else build_namespace cfg.namespace [] b)
  namespaces-Extends true cfg c b = build_namespaces-Extends c.namespaces b
  namespaces-Extends false cfg c b = build_namespace-Extends cfg.namespace [] b

  pub build_roots-Extends :
      (cfg : Config) (c : Caches) (b : Build F) → Extends b (build_roots cfg c b)
  unfolding build_roots
  build_roots-Extends cfg c b =
      Extends-trans b _ _ (namespaces-Extends (cluster_scope cfg) cfg c b)
        (build_cluster-Extends cfg _)

  with_pods-Extends :
      (cfg : Config) (c : Caches) (now : Time) (t : RestartTracker F)
      → Extends new_build (build_with_pods cfg c now t).build
  unfolding build_with_pods
  with_pods-Extends cfg c now t =
      Extends-trans _ _ _ (build_below-Extends cfg c now)
        (build_pods-Extends c.replica_sets now c.pods _)

  whole-IsListed :
      (cfg : Config) (c : Caches) (now : Time) (t : RestartTracker F)
      → IsListed (build_roots cfg c (build_with_pods cfg c now t).build)
  whole-IsListed cfg c now t =
      (build_roots-Extends cfg c _).listed
        ((with_pods-Extends cfg c now t).listed (unfold new_build in refl))

  HasNode-finish :
      (id : String) (now : Time) (b : Build F)
      → IsListed b
      → elem id b.exists ≡ true
      → HasNode id (finish now b).nodes
  unfolding finish
  HasNode-finish id now b listed h =
      rw (map-sort node_id b.nodes, elem-sort id (map node_id b.nodes), ← listed) h

  IsClosed-lem :
      (now : Time) (b : Build F) (edges : List Edge)
      → IsListed b
      → All (EndsIn b.exists) edges
      → IsClosed (finish now b).nodes edges
  IsClosed-lem now b [] listed h = tt
  IsClosed-lem now b (e ∷ edges) listed h = (
    (HasNode-finish e.source now b listed h.0.0, HasNode-finish e.target now b listed h.0.1),
    IsClosed-lem now b edges listed h.1,
  )

  finish-IsClosed :
      (now : Time) (b : Build F) → IsListed b → IsClosed (finish now b).nodes (finish now b).edges
  unfolding finish
  finish-IsClosed now b listed =
      IsClosed-lem now b (sort _ (keep_edges b.exists b.edges [])) listed
        (All-sort edge_id (EndsIn b.exists) _ (keep_edges-EndsIn b.exists b.edges []))

  -- Each edge of a graph that is built has both ends among its nodes.
  pub build_graph-IsClosed :
      (cfg : Config) (c : Caches) (now : Time) (t : RestartTracker F)
      → IsClosed (build_graph cfg c now t).0.nodes (build_graph cfg c now t).0.edges
  unfolding build_graph
  build_graph-IsClosed cfg c now t =
      finish-IsClosed now (build_roots cfg c (build_with_pods cfg c now t).build)
        (whole-IsListed cfg c now t)

  -- A graph that is built has its nodes and its edges in the order of their IDs, and no two edges
  -- with the same ID.
  pub build_graph-IsSorted :
      (cfg : Config) (c : Caches) (now : Time) (t : RestartTracker F)
      → IsSorted less_text (map node_id (build_graph cfg c now t).0.nodes)
        × IsSorted less_text (map edge_id (build_graph cfg c now t).0.edges)
        × Once (map edge_id (build_graph cfg c now t).0.edges)
  unfolding build_graph finish
  build_graph-IsSorted cfg c now t =
      let b = build_roots cfg c (build_with_pods cfg c now t).build in
      (
        sort-key-IsSorted node_id b.nodes,
        sort-key-IsSorted edge_id (keep_edges b.exists b.edges []),
        rw (map-sort edge_id (keep_edges b.exists b.edges []))
            (Once-sort _ (keep_edges-Once b.exists b.edges [])),
      )

  build_pods-has :
      (sets : List KubeReplicaSet) (now : Time) (ps : List KubePod) (s : PodsBuild F) (p : KubePod)
      → In p ps
      → elem (object_id "Pod" p.namespace p.name) (build_pods sets now ps s).build.exists ≡ true
  unfolding build_pods
  build_pods-has sets now [] s p i = elim i [ ]
  build_pods-has sets now (q ∷ rest) s p (inl e) =
      (build_pods-Extends sets now rest (build_pod sets now q s)).keeps _ (
        subst
          (λ z.
            elem (object_id "Pod" z.namespace z.name) (build_pod sets now q s).build.exists ≡ true)
          e (elem-build_pod sets now q s))
  build_pods-has sets now (q ∷ rest) s p (inr i) =
      build_pods-has sets now rest (build_pod sets now q s) p i

  -- Each pod in the cache has its node in the graph that is built.
  pub build_graph-has_pod :
      (cfg : Config) (c : Caches) (now : Time) (t : RestartTracker F) (p : KubePod)
      → In p c.pods
      → HasNode (object_id "Pod" p.namespace p.name) (build_graph cfg c now t).0.nodes
  unfolding build_graph build_with_pods
  build_graph-has_pod cfg c now t p i =
      HasNode-finish _ now (build_roots cfg c (build_with_pods cfg c now t).build)
        (whole-IsListed cfg c now t)
        ((build_roots-Extends cfg c _).keeps _ (build_pods-has c.replica_sets now c.pods _ p i))

  build_pods-live :
      (sets : List KubeReplicaSet) (now : Time) (ps : List KubePod) (s : PodsBuild F) (key : String)
      → elem key (build_pods sets now ps s).live_pods
        ≡ (elem key (map pod_key ps) || elem key s.live_pods)
  unfolding build_pods build_pod
  build_pods-live sets now [] s key = refl
  build_pods-live sets now (p ∷ rest) s key =
      rw (build_pods-live sets now rest (build_pod sets now p s) key) (ground arith)

  pub with_pods-live :
      (cfg : Config) (c : Caches) (now : Time) (t : RestartTracker F) (key : String)
      → elem key (build_with_pods cfg c now t).live_pods ≡ elem key (map pod_key c.pods)
  unfolding build_with_pods
  with_pods-live cfg c now t key =
      rw (build_pods-live c.replica_sets now c.pods _ key) (ground arith)

  -- After a build the tracker has no rate for a pod that is not in the cache: its rate reads 0.
  pub build_graph-forgets :
      (cfg : Config) (c : Caches) (now : Time) (t : RestartTracker F) (key : String)
      → elem key (map pod_key c.pods) ≡ false
      → pod_rate key (build_graph cfg c now t).1 ≡ lit 0
  unfolding build_graph
  build_graph-forgets cfg c now t key gone =
      let s = build_with_pods cfg c now t in
      rw
        (
          (prune-rates s.live_pods s.live_containers s.restarts key (pos 0) now).0,
          with_pods-live cfg c now t key,
          gone,
        )
        refl

  -- The scoped snapshot of a graph that is built has both ends of each of its edges.
  pub scoped_build-IsClosed :
      (ns : String) (cfg : Config) (c : Caches) (now : Time) (t : RestartTracker F)
      → IsClosed
          (namespace_snapshot ns (build_graph cfg c now t).0).nodes
          (namespace_snapshot ns (build_graph cfg c now t).0).edges
  scoped_build-IsClosed ns cfg c now t =
      scoped-IsClosed ns (build_graph cfg c now t).0 (build_graph-IsClosed cfg c now t)
