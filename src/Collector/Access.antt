-- ===== src/Collector/Access.antt =====
-- internal/collector: the collector as a whole, with `New`, the first rebuild of `Start`, `rebuild` and
-- `Synced`, and the accessors of accessors.go. A lister is the list of the objects in its cache; one
-- that is nil is not read.
pub mod Resources
pub mod Life
pub mod Shown
pub mod Stages
pub mod Objects
pub mod Known
pub mod Origins
use pulsebox.Base.{ℕ, String, Bool, true, false, List, [], ◌∷◌, if◌then◌else◌, concat, string_eq}
use pulsebox.Base.Int.{pos, Time, Duration, eqb_ℤ}
use pulsebox.Base.Float.{Float}
use pulsebox.K8s.{
  KubeNode, KubeVolume, KubeDeployment, KubeStatefulSet, KubeDaemonSet, KubeClaim, KubeService,
  KubePod, KubeNamespace,
}
use pulsebox.Collector.Broker.{count}
use pulsebox.Collector.Restarts.{RestartTracker, new_tracker, pod_rate}
use pulsebox.Collector.Events.{Event}
use pulsebox.Collector.Stream.{Stream, new_stream, rebuild}
use pulsebox.Collector.Build.Lookups.{endpoints_for}
use pulsebox.Collector.Build.Roots.{Caches, Config, cluster_scope, build_graph}

-- What `rebuildLoop` and the informers share is in Debounce.
pub record Collector (F : Type 0) : Type 0 where
  pub cfg : Config
  pub caches : Caches
  pub events : List Event
  pub restarts : RestartTracker F
  pub stream : Stream F
  pub synced : Bool

-- Where `Start` is: the caches have not synced; the collector is marked synced; the loop runs.
pub data StartPhase : Type 0 where
  syncing marked looping : StartPhase

unfoldable pub default_to : Duration → Duration → Duration
default_to default d = if eqb_ℤ d (pos 0) then default else d

unfoldable pub with_defaults : Config → Config
unfolding default_to
with_defaults c = record c {
  rebuild_debounce = default_to (pos 750000000) c.rebuild_debounce;
  pvc_pending_grace = default_to (pos 120000000000) c.pvc_pending_grace;
}

abbrev pub no_caches : Caches
no_caches = record {
  nodes = [];
  volumes = [];
  namespaces = [];
  deployments = [];
  stateful_sets = [];
  daemon_sets = [];
  replica_sets = [];
  claims = [];
  services = [];
  endpoints = [];
  pods = [];
}

-- The resources whose informers `New` registers, and whose changes mark the graph dirty.
unfoldable pub informers : Config → List String
unfolding cluster_scope
informers cfg =
    let wide =
      if cluster_scope cfg then "Namespaces" ∷ "Nodes" ∷ "PersistentVolumes" ∷ [] else [] in
    "Pods" ∷ "PersistentVolumeClaims" ∷ "Services" ∷ "Endpoints" ∷ "Events" ∷ "Deployments"
    ∷ "StatefulSets" ∷ "DaemonSets" ∷ "ReplicaSets" ∷ wide

module _ {F : Type 0} where
  -- `New`: nothing is watched yet.
  unfoldable pub new_collector : Config → Collector F
  unfolding with_defaults new_tracker new_stream
  new_collector cfg = record {
    cfg = with_defaults cfg;
    caches = no_caches;
    events = [];
    restarts = new_tracker;
    stream = new_stream;
    synced = false;
  }

  unfoldable pub stream_subscribers : Collector F → ℕ
  unfolding count
  stream_subscribers c = count c.stream.broker

  unfoldable pub node_list : Collector F → List KubeNode
  unfolding cluster_scope
  node_list c = if cluster_scope c.cfg then c.caches.nodes else []

  unfoldable pub namespace_list : Collector F → List KubeNamespace
  unfolding cluster_scope
  namespace_list c = if cluster_scope c.cfg then c.caches.namespaces else []

  unfoldable pub volume_list : Collector F → List KubeVolume
  unfolding cluster_scope
  volume_list c = if cluster_scope c.cfg then c.caches.volumes else []

  -- The namespaced lists.
  abbrev pub pod_list : Collector F → List KubePod
  pod_list c = c.caches.pods

  abbrev pub claim_list : Collector F → List KubeClaim
  claim_list c = c.caches.claims

  abbrev pub service_list : Collector F → List KubeService
  service_list c = c.caches.services

  abbrev pub deployment_list : Collector F → List KubeDeployment
  deployment_list c = c.caches.deployments

  abbrev pub stateful_set_list : Collector F → List KubeStatefulSet
  stateful_set_list c = c.caches.stateful_sets

  abbrev pub daemon_set_list : Collector F → List KubeDaemonSet
  daemon_set_list c = c.caches.daemon_sets

  unfoldable pub ready_endpoints : String → String → Collector F → ℕ
  unfolding endpoints_for
  ready_endpoints ns name c = (endpoints_for c.caches.endpoints ns name).0

module _ {F : Type 0} ⦃fl : Float F⦄ where
  -- `rebuild` as a whole: the graph is built from the caches and published.
  unfoldable pub refresh : Time → Collector F → Collector F
  unfolding build_graph rebuild
  refresh now c =
      let (g, t) = build_graph c.cfg c.caches now c.restarts in
      record c { restarts = t; stream = rebuild g c.stream }

  -- One step of the goroutine that rebuilds: `Start` marks the collector synced, makes the first
  -- rebuild, and leaves the others to `rebuildLoop`.
  unfoldable pub start_step : Time → StartPhase → Collector F → StartPhase × Collector F
  unfolding refresh
  start_step now syncing c = (marked, record c { synced = true })
  start_step now marked c = (looping, refresh now c)
  start_step now looping c = (looping, refresh now c)

  -- `Start`, once the caches have synced: they hold what the API server has listed.
  unfoldable pub start_collector : Caches → List Event → Time → Collector F → Collector F
  unfolding start_step
  start_collector caches events now c =
      let (p, d) = start_step now syncing (record c { caches = caches; events = events }) in
      (start_step now p d).1

  unfoldable pub restart_rate : String → String → Collector F → F
  unfolding pod_rate
  restart_rate ns pod c = pod_rate (concat (ns ∷ "/" ∷ pod ∷ [])) c.restarts
