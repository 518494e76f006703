-- ===== src/Collector/Access/Objects.antt =====
-- graph.go, `buildGraph`: the graph has a node for each object that the listers return.
use pulsebox.Base.{true, List, [], ◌∷◌, ◌≡◌, refl, subst, if◌then◌else◌, inl, inr}
use pulsebox.Base.Int.{Time}
use pulsebox.Base.Float.{Float}
use pulsebox.K8s.{KubePod, KubeReplicaSet, KubeNamespace}
use pulsebox.Collector.Scope.Kept.{In}
use pulsebox.Collector.Build.{Build, finish}
use pulsebox.Collector.Build.Pods.{PodsBuild, build_pod, build_pods}
use pulsebox.Collector.Restarts.{RestartTracker}
use pulsebox.Collector.Build.Roots.{
  Caches, Config, cluster_scope, build_namespace, build_namespaces, build_below, build_with_pods,
  build_roots, build_graph,
}
use pulsebox.Collector.Build.Steps.{
  build_pods-Extends, build_namespaces-Extends, build_cluster-Extends,
}
use pulsebox.Collector.Build.Kept.{In-sort}
use pulsebox.Collector.Build.Whole.{build_roots-Extends}
use pulsebox.Collector.Access.{Collector}
use pulsebox.Collector.Access.Resources.{
  Object, pod_object, node_object, namespace_object, deployment_object, stateful_set_object,
  daemon_set_object, service_object, claim_object, volume_object,
}
use pulsebox.Collector.Access.Resources.Found.{IsHeld}
use pulsebox.Collector.Access.Shown.{HasNodeOf, later, loop-HasNodeOf, pod-shown, namespace-shown}
use pulsebox.Collector.Access.Stages.{
  from_claims, from_daemon_sets, from_stateful_sets, from_deployments, from_deployments-Extends,
  service-below, claim-below, daemon_set-below, stateful_set-below, deployment-below, wide,
  volume-wide, node-wide,
}

module _ {F : Type 0} ⦃fl : Float F⦄ where
  pods-shown :
      (sets : List KubeReplicaSet) (now : Time) (ps : List KubePod) (s : PodsBuild F) (p : KubePod)
      → In p ps
      → HasNodeOf (pod_object p) (build_pods sets now ps s).build.nodes
  unfolding build_pods
  pods-shown sets now [] s p i = elim i [ ]
  pods-shown sets now (q ∷ ps) s p (inr i) = pods-shown sets now ps (build_pod sets now q s) p i
  pods-shown sets now (q ∷ ps) s p (inl e) =
      later (pod_object p) _ _ (build_pods-Extends sets now ps (build_pod sets now q s)) (
        subst (λ z. HasNodeOf (pod_object z) (build_pod sets now q s).build.nodes) e
          (pod-shown sets now q s))

  module _ (cfg : Config) (c : Caches) (now : Time) (t : RestartTracker F) where
    -- What stands in an earlier stage stands in the graph.
    roots-shown :
        (o : Object)
        → HasNodeOf o (build_roots cfg c (build_with_pods cfg c now t).build).nodes
        → HasNodeOf o (build_graph cfg c now t).0.nodes
    unfolding build_graph finish
    roots-shown o (n, i, is) = (n, In-sort _ n _ i, is)

    with_pods-shown :
        (o : Object)
        → HasNodeOf o (build_with_pods cfg c now t).build.nodes
        → HasNodeOf o (build_graph cfg c now t).0.nodes
    with_pods-shown o h = roots-shown o (later o _ _ (build_roots-Extends cfg c _) h)

    below-shown :
        (o : Object)
        → ((b : Build F) → HasNodeOf o (from_deployments cfg c now b).nodes)
        → HasNodeOf o (build_graph cfg c now t).0.nodes
    unfolding build_with_pods build_below from_deployments
    below-shown o h =
        with_pods-shown o (later o _ _ (build_pods-Extends c.replica_sets now c.pods _) (h _))

    wide-shown :
        (o : Object)
        → cluster_scope cfg ≡ true
        → HasNodeOf {F = F} o (wide cfg c now).nodes
        → HasNodeOf o (build_graph cfg c now t).0.nodes
    unfolding build_with_pods build_below from_deployments wide
    wide-shown o w h = with_pods-shown o (
        later o _ _ (build_pods-Extends c.replica_sets now c.pods _) (
          rw (w, build_below)
            (later o _ _ (from_deployments-Extends cfg c now (wide cfg c now)) h)))

    namespace-root :
        (ns : KubeNamespace)
        → cluster_scope cfg ≡ true
        → In ns c.namespaces
        → HasNodeOf (namespace_object ns) (build_graph cfg c now t).0.nodes
    unfolding build_roots build_namespaces
    namespace-root ns w i =
        let b = (build_with_pods cfg c now t).build in
        let named =
          if cluster_scope cfg
          then build_namespaces c.namespaces b
          else build_namespace cfg.namespace [] b in
        roots-shown (namespace_object ns) (
          later (namespace_object ns) named _ (build_cluster-Extends cfg named) (
            rw w (
              loop-HasNodeOf namespace_object
                (λ y. build_namespace y.name (("phase", y.phase) ∷ [])) build_namespaces ns
                c.namespaces b (λ y ys b. refl) build_namespaces-Extends namespace-shown i)))

  -- Each object that a lister returns has a node in the graph that is built: with the ID, the kind,
  -- the namespace and the name of the object.
  pub build_graph-HasNodeOf :
      (c : Collector F) (now : Time) (o : Object)
      → IsHeld c o
      → HasNodeOf o (build_graph c.cfg c.caches now c.restarts).0.nodes
  unfolding from_deployments from_stateful_sets from_daemon_sets from_claims build_with_pods
  build_graph-HasNodeOf c now (pod_object p) i =
      with_pods-shown c.cfg c.caches now c.restarts (pod_object p)
        (pods-shown c.caches.replica_sets now c.caches.pods _ p i)
  build_graph-HasNodeOf c now (node_object n) (i, w) =
      wide-shown c.cfg c.caches now c.restarts (node_object n) w (node-wide c.cfg c.caches now n i)
  build_graph-HasNodeOf c now (volume_object v) (i, w) =
      wide-shown c.cfg c.caches now c.restarts (volume_object v) w
        (volume-wide c.cfg c.caches now v i)
  build_graph-HasNodeOf c now (namespace_object ns) (i, w) =
      namespace-root c.cfg c.caches now c.restarts ns w i
  build_graph-HasNodeOf c now (deployment_object d) i =
      below-shown c.cfg c.caches now c.restarts (deployment_object d)
        (λ b. deployment-below c.cfg c.caches now d b i)
  build_graph-HasNodeOf c now (stateful_set_object s) i =
      below-shown c.cfg c.caches now c.restarts (stateful_set_object s)
        (λ b. stateful_set-below c.cfg c.caches now s _ i)
  build_graph-HasNodeOf c now (daemon_set_object s) i =
      below-shown c.cfg c.caches now c.restarts (daemon_set_object s)
        (λ b. daemon_set-below c.cfg c.caches now s _ i)
  build_graph-HasNodeOf c now (claim_object p) i =
      below-shown c.cfg c.caches now c.restarts (claim_object p)
        (λ b. claim-below c.cfg c.caches now p _ i)
  build_graph-HasNodeOf c now (service_object s) i =
      below-shown c.cfg c.caches now c.restarts (service_object s)
        (λ b. service-below c.cfg c.caches now s _ i)
