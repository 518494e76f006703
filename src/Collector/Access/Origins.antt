-- ===== src/Collector/Access/Origins.antt =====
-- graph.go, `buildGraph`: every node of the graph is that of an object, of the namespace that the
-- collector is bound to, or the cluster's.
use pulsebox.Base.{
  true, false, [], ◌∷◌, ◌≡◌, refl, if◌then◌else◌, string_eq, All, Bool-cases, inl, inr, ◌⊎◌,
}
use pulsebox.Base.Int.{Time}
use pulsebox.Base.Float.{Float}
use pulsebox.Topology.{node_id}
use pulsebox.Collector.Build.{Build, add_node, add_edge, add_child, new_build, finish}
use pulsebox.Collector.Build.Storage.{
  build_node, build_nodes, build_volumes, build_claim, build_claims, build_service, build_services,
}
use pulsebox.Collector.Build.Workloads.{
  workload_node, build_workload, build_deployments, build_stateful_sets, build_daemon_sets,
}
use pulsebox.Collector.Build.Roots.{
  cluster_scope, rolled_node, build_namespace, build_namespaces, build_cluster, build_below,
  build_with_pods, build_roots, build_graph,
}
use pulsebox.Collector.Build.Scores.{All-append}
use pulsebox.Collector.Build.Kept.{All-sort}
use pulsebox.Collector.Access.{Collector}
use pulsebox.Collector.Access.Resources.{
  namespace_object, deployment_object, stateful_set_object, daemon_set_object, volume_object,
}
use pulsebox.Collector.Access.Known.{
  Origin, of_object, of_namespace, of_cluster, Known, loop-Known, added-Known, node-Known,
  claim-Known, service-Known, namespace-Known, pods-Known,
}

module _ {F : Type 0} ⦃fl : Float F⦄ (c : Collector F) where
  -- The nodes and the volumes, which are visited in the cluster-wide mode only.
  wide-Known :
      cluster_scope c.cfg ≡ true
      → Known c (build_volumes c.caches.volumes (build_nodes c.caches.nodes new_build))
  unfolding build_volumes build_nodes new_build add_node
  wide-Known w =
      loop-Known c (λ v. build_volumes (v ∷ [])) build_volumes c.caches.volumes _ (λ y ys b. refl)
        (λ b. refl) (λ v b i k. added-Known c (volume_object v) _ _ _ (i, w) k)
        (loop-Known c build_node build_nodes c.caches.nodes new_build (λ y ys b. refl) (λ b. refl)
          (λ n b i k. node-Known c n b (i, w) k) tt)

  workloads-Known :
      (b : Build F)
      → Known c b
      → Known c (
          build_daemon_sets c.caches.daemon_sets
            (build_stateful_sets c.caches.stateful_sets (build_deployments c.caches.deployments b)))
  unfolding build_deployments build_stateful_sets build_daemon_sets build_workload workload_node
      add_edge add_node add_child
  workloads-Known b k =
      loop-Known c (λ y. build_daemon_sets (y ∷ [])) build_daemon_sets c.caches.daemon_sets _
        (λ y ys b. refl) (λ b. refl) (λ y b i k. added-Known c (daemon_set_object y) _ _ _ i k)
        (loop-Known c (λ y. build_stateful_sets (y ∷ [])) build_stateful_sets c.caches.stateful_sets
          _ (λ y ys b. refl) (λ b. refl)
          (λ y b i k. added-Known c (stateful_set_object y) _ _ _ i k)
          (loop-Known c (λ y. build_deployments (y ∷ [])) build_deployments c.caches.deployments b
            (λ y ys b. refl) (λ b. refl) (λ y b i k. added-Known c (deployment_object y) _ _ _ i k)
            k))

  below-Known : (now : Time) → Known c (build_below c.cfg c.caches now)
  unfolding build_below build_claims build_services
  below-Known now =
      loop-Known c (build_service c.caches.endpoints) (build_services c.caches.endpoints)
        c.caches.services _ (λ y ys b. refl) (λ b. refl)
        (λ s b i k. service-Known c c.caches.endpoints s b i k)
        (loop-Known c (build_claim now c.cfg.pvc_pending_grace)
          (build_claims now c.cfg.pvc_pending_grace) c.caches.claims _ (λ y ys b. refl) (λ b. refl)
          (λ p b i k. claim-Known c now c.cfg.pvc_pending_grace p b i k)
          (workloads-Known _ (start (Bool-cases (cluster_scope c.cfg)))))
    where
      start :
          (cluster_scope c.cfg ≡ true) ⊎ (cluster_scope c.cfg ≡ false)
          → Known c (
              if cluster_scope c.cfg
              then build_volumes c.caches.volumes (build_nodes c.caches.nodes new_build)
              else new_build)
      start (inl w) = rw w (wide-Known w)
      start (inr w) = rw w (unfold new_build in tt)

  roots-Known : (b : Build F) → Known c b → Known c (build_roots c.cfg c.caches b)
  unfolding build_roots build_cluster rolled_node add_node build_namespaces
  roots-Known b k =
      All-append (Origin c) _ _ (named (Bool-cases (cluster_scope c.cfg))) (of_cluster refl refl)
    where
      named :
          (cluster_scope c.cfg ≡ true) ⊎ (cluster_scope c.cfg ≡ false)
          → Known c (
              if cluster_scope c.cfg
              then build_namespaces c.caches.namespaces b
              else build_namespace c.cfg.namespace [] b)
      named (inl w) = rw w (
          loop-Known c (λ y. build_namespace y.name (("phase", y.phase) ∷ [])) build_namespaces
            c.caches.namespaces b (λ y ys b. refl) (λ b. refl)
            (λ y b i k.
              namespace-Known c y.name _ b
                (λ n id kind ns name.
                  of_object (namespace_object y) (i, w)
                    (record { id_eq = id; kind_eq = kind; namespace_eq = ns; name_eq = name }))
                k)
            k)
      named (inr w) =
          rw w (
            namespace-Known c c.cfg.namespace [] b (λ n id kind ns name. of_namespace w kind name)
              k)

  -- Each node of the graph that is built is that of an object that a lister returns, with its ID,
  -- kind, namespace and name; or that of the namespace the collector is bound to, where it is bound
  -- to one; or that of the cluster.
  pub build_graph-Origin :
      (now : Time) → All (Origin c) (build_graph c.cfg c.caches now c.restarts).0.nodes
  unfolding build_graph finish build_with_pods
  build_graph-Origin now = All-sort node_id (Origin c) _ (
      roots-Known _
        (pods-Known c c.caches.replica_sets now c.caches.pods _ (λ p i. i) (below-Known now)))
