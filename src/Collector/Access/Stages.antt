-- ===== src/Collector/Access/Stages.antt =====
-- graph.go, `buildGraph`: the stages from a loop to the services, and the objects that each has visited.
use pulsebox.Base.{[], ◌∷◌, refl}
use pulsebox.Base.Int.{Time}
use pulsebox.Base.Float.{Float}
use pulsebox.K8s.{
  KubeNode, KubeVolume, KubeClaim, KubeService, KubeDeployment, KubeStatefulSet, KubeDaemonSet,
}
use pulsebox.Collector.Scope.Kept.{In}
use pulsebox.Collector.Build.{Build, new_build}
use pulsebox.Collector.Build.Storage.{
  build_node, build_nodes, build_volumes, build_claim, build_claims, build_service, build_services,
}
use pulsebox.Collector.Build.Workloads.{build_deployments, build_stateful_sets, build_daemon_sets}
use pulsebox.Collector.Build.Roots.{Caches, Config}
use pulsebox.Collector.Build.Closed.{Extends, Extends-trans}
use pulsebox.Collector.Build.Steps.{
  build_nodes-Extends, build_volumes-Extends, build_claims-Extends, build_services-Extends,
  build_deployments-Extends, build_stateful_sets-Extends, build_daemon_sets-Extends,
}
use pulsebox.Collector.Access.Resources.{
  node_object, deployment_object, stateful_set_object, daemon_set_object, service_object,
  claim_object, volume_object,
}
use pulsebox.Collector.Access.Shown.{
  HasNodeOf, later, loop-HasNodeOf, node-shown, volume-shown, claim-shown, service-shown,
  deployment-shown, stateful_set-shown, daemon_set-shown,
}

module _ {F : Type 0} ⦃fl : Float F⦄ where
  -- The stages from a loop of `buildGraph` to that of the services.
  module _ (cfg : Config) (c : Caches) (now : Time) where
    unfoldable pub from_services : Build F → Build F
    from_services b = build_services c.endpoints c.services b

    unfoldable pub from_claims : Build F → Build F
    unfolding from_services
    from_claims b = from_services (build_claims now cfg.pvc_pending_grace c.claims b)

    unfoldable pub from_daemon_sets : Build F → Build F
    unfolding from_claims
    from_daemon_sets b = from_claims (build_daemon_sets c.daemon_sets b)

    unfoldable pub from_stateful_sets : Build F → Build F
    unfolding from_daemon_sets
    from_stateful_sets b = from_daemon_sets (build_stateful_sets c.stateful_sets b)

    unfoldable pub from_deployments : Build F → Build F
    unfolding from_stateful_sets
    from_deployments b = from_stateful_sets (build_deployments c.deployments b)

    from_claims-Extends : (b : Build F) → Extends b (from_claims b)
    unfolding from_claims
    from_claims-Extends b =
        Extends-trans b _ _ (build_claims-Extends now cfg.pvc_pending_grace c.claims b)
          (build_services-Extends c.endpoints c.services _)

    from_daemon_sets-Extends : (b : Build F) → Extends b (from_daemon_sets b)
    unfolding from_daemon_sets
    from_daemon_sets-Extends b =
        Extends-trans b _ _ (build_daemon_sets-Extends c.daemon_sets b) (from_claims-Extends _)

    from_stateful_sets-Extends : (b : Build F) → Extends b (from_stateful_sets b)
    unfolding from_stateful_sets
    from_stateful_sets-Extends b =
        Extends-trans b _ _ (build_stateful_sets-Extends c.stateful_sets b)
          (from_daemon_sets-Extends _)

    pub from_deployments-Extends : (b : Build F) → Extends b (from_deployments b)
    unfolding from_deployments
    from_deployments-Extends b =
        Extends-trans b _ _ (build_deployments-Extends c.deployments b)
          (from_stateful_sets-Extends _)

    pub service-below :
        (s : KubeService) (b : Build F)
        → In s c.services
        → HasNodeOf (service_object s) (from_services b).nodes
    unfolding from_services build_services
    service-below s b i =
        loop-HasNodeOf service_object (build_service c.endpoints) (build_services c.endpoints) s
          c.services b (λ y ys b. refl) (build_services-Extends c.endpoints)
          (service-shown c.endpoints) i

    pub claim-below :
        (p : KubeClaim) (b : Build F)
        → In p c.claims
        → HasNodeOf (claim_object p) (from_claims b).nodes
    unfolding from_claims build_claims
    claim-below p b i =
        let grace = cfg.pvc_pending_grace in
        later (claim_object p) _ _ (build_services-Extends c.endpoints c.services _) (
          loop-HasNodeOf claim_object (build_claim now grace) (build_claims now grace) p c.claims b
            (λ y ys b. refl) (build_claims-Extends now grace) (claim-shown now grace) i)

    pub daemon_set-below :
        (s : KubeDaemonSet) (b : Build F)
        → In s c.daemon_sets
        → HasNodeOf (daemon_set_object s) (from_daemon_sets b).nodes
    unfolding from_daemon_sets build_daemon_sets
    daemon_set-below s b i = later (daemon_set_object s) _ _ (from_claims-Extends _) (
        loop-HasNodeOf daemon_set_object (λ y. build_daemon_sets (y ∷ [])) build_daemon_sets s
          c.daemon_sets b (λ y ys b. refl) build_daemon_sets-Extends daemon_set-shown i)

    pub stateful_set-below :
        (s : KubeStatefulSet) (b : Build F)
        → In s c.stateful_sets
        → HasNodeOf (stateful_set_object s) (from_stateful_sets b).nodes
    unfolding from_stateful_sets build_stateful_sets
    stateful_set-below s b i = later (stateful_set_object s) _ _ (from_daemon_sets-Extends _) (
        loop-HasNodeOf stateful_set_object (λ y. build_stateful_sets (y ∷ [])) build_stateful_sets s
          c.stateful_sets b (λ y ys b. refl) build_stateful_sets-Extends stateful_set-shown i)

    pub deployment-below :
        (d : KubeDeployment) (b : Build F)
        → In d c.deployments
        → HasNodeOf (deployment_object d) (from_deployments b).nodes
    unfolding from_deployments build_deployments
    deployment-below d b i = later (deployment_object d) _ _ (from_stateful_sets-Extends _) (
        loop-HasNodeOf deployment_object (λ y. build_deployments (y ∷ [])) build_deployments d
          c.deployments b (λ y ys b. refl) build_deployments-Extends deployment-shown i)

    -- The nodes and the volumes, which are visited in the cluster-wide mode.
    unfoldable pub wide : Build F
    wide = build_volumes c.volumes (build_nodes c.nodes new_build)

    pub volume-wide : (v : KubeVolume) → In v c.volumes → HasNodeOf (volume_object v) wide.nodes
    unfolding wide build_volumes
    volume-wide v i =
        loop-HasNodeOf volume_object (λ y. build_volumes (y ∷ [])) build_volumes v c.volumes _
          (λ y ys b. refl) build_volumes-Extends volume-shown i

    pub node-wide : (n : KubeNode) → In n c.nodes → HasNodeOf (node_object n) wide.nodes
    unfolding wide build_nodes
    node-wide n i = later (node_object n) _ _ (build_volumes-Extends c.volumes _) (
        loop-HasNodeOf node_object build_node build_nodes n c.nodes new_build (λ y ys b. refl)
          build_nodes-Extends node-shown i)
