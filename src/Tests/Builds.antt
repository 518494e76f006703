-- ===== src/Tests/Builds.antt =====
-- A build of a small cluster: a pod of a StatefulSet on a node, with a claim that does not exist.
use pulsebox.Base.{
  All, arith, String, ℕ, true, false, [], ◌∷◌, none, some, ◌≡◌, refl, map, inl, less_text,
  string_eq,
}
use pulsebox.Base.Int.{pos}
use pulsebox.Base.Sort.{IsSorted}
use pulsebox.Base.Float.{InUnit}
use pulsebox.Base.Fixed.{fixed, fixed-FloatLaws}
use pulsebox.K8s.{KubeNode, KubePod, KubeEndpoints}
use pulsebox.Topology.{Graph, node_id, edge_id}
use pulsebox.Collector.Restarts.{RestartTracker, pod_rate}
use pulsebox.Collector.Scope.{namespace_snapshot}
use pulsebox.Collector.Scope.Kept.{HasNode, IsClosed}
use pulsebox.Collector.Build.{object_id}
use pulsebox.Collector.Build.Lookups.{endpoints_for, find_endpoints}
use pulsebox.Collector.Build.Kept.{Once}
use pulsebox.Collector.Build.Pods.{pod_key}
use pulsebox.Collector.Build.Roots.{Caches, Config, build_graph}
use pulsebox.Base.Slash.{is_plain}
use pulsebox.Collector.Build.Bounds.{build_graph-InUnit}
use pulsebox.Collector.Build.Ids.{object_id-injective}
use pulsebox.Base.{elem}
use pulsebox.Collector.Build.Routes.{backs, endpoints_for-Once}
use pulsebox.Collector.Build.Whole.{
  build_graph-IsClosed, build_graph-IsSorted, build_graph-has_pod, build_graph-forgets,
  scoped_build-IsClosed,
}

abbrev pub cart : KubePod
cart = record {
  namespace = "shop";
  name = "cart-0";
  owners = (record { kind = "StatefulSet"; name = "cart" }) ∷ [];
  phase = "Running";
  reason = "";
  container_statuses =
      (record {
        name = "app";
        ready = true;
        waiting = none;
        terminated = none;
        restart_count = pos 4;
      })
      ∷ [];
  node_name = "worker-1";
  images = "cart:1" ∷ [];
  claims = none ∷ some "missing" ∷ [];
}

abbrev cart_endpoints : KubeEndpoints
cart_endpoints = record {
  namespace = "shop";
  name = "cart";
  subsets =
      (record {
        addresses = some (record { kind = "Pod"; name = "cart-0" }) ∷ none ∷ [];
        not_ready_addresses = some (record { kind = "Pod"; name = "cart-0" }) ∷ [];
      })
      ∷ [];
}

abbrev pub worker : KubeNode
worker = record {
  name = "worker-1";
  labels = [];
  unschedulable = false;
  taints = [];
  kubelet_version = "v1.29.0";
  conditions = [];
  capacity = [];
}

abbrev pub caches : Caches
caches = record {
  nodes = worker ∷ [];
  volumes = [];
  namespaces = (record { name = "shop"; phase = "Active" }) ∷ [];
  deployments = [];
  stateful_sets =
      (record {
        namespace = "shop";
        name = "cart";
        replicas = some (pos 1);
        ready_replicas = pos 1;
        current_replicas = pos 1;
      })
      ∷ [];
  daemon_sets = [];
  replica_sets = [];
  claims = [];
  services = [];
  endpoints = cart_endpoints ∷ [];
  pods = cart ∷ [];
}

abbrev pub config : Config
config = record {
  namespace = "";
  resync_period = pos 600000000000;
  rebuild_debounce = pos 750000000;
  pvc_pending_grace = pos 120000000000;
}

abbrev pub tracker : RestartTracker ℕ
tracker = record { samples = []; pod_rates = ("shop/old-0", 400) ∷ [] }

abbrev built : Graph ℕ × RestartTracker ℕ
built = build_graph config caches (pos 7) tracker

build_graph-IsClosed_example : IsClosed built.0.nodes built.0.edges
build_graph-IsClosed_example = build_graph-IsClosed config caches (pos 7) tracker

build_graph-IsSorted_example :
    IsSorted less_text (map node_id built.0.nodes)
    × IsSorted less_text (map edge_id built.0.edges)
    × Once (map edge_id built.0.edges)
build_graph-IsSorted_example = build_graph-IsSorted config caches (pos 7) tracker

build_graph-InUnit_example : All (λ n. InUnit n.score) built.0.nodes
build_graph-InUnit_example =
    build_graph-InUnit fixed-FloatLaws config caches (pos 7) tracker
      (record {
        deployments = tt;
        stateful_sets = ((omega arith, omega arith, omega arith), tt);
        daemon_sets = tt;
      })
      (omega arith)

build_graph-has_pod_test : HasNode "Pod/shop/cart-0" built.0.nodes
unfolding object_id
build_graph-has_pod_test = build_graph-has_pod config caches (pos 7) tracker cart (inl refl)

build_graph-forgets_example : pod_rate "shop/old-0" built.1 ≡ 0
unfolding pod_key
build_graph-forgets_example = build_graph-forgets config caches (pos 7) tracker "shop/old-0" refl

scoped_build-IsClosed_test :
    IsClosed (namespace_snapshot "shop" built.0).nodes (namespace_snapshot "shop" built.0).edges
scoped_build-IsClosed_test = scoped_build-IsClosed "shop" config caches (pos 7) tracker

-- The ids of the graph: the edge to the missing claim is not there.
node_ids_test :
    map node_id built.0.nodes
    ≡ "Cluster" ∷ "Namespace/shop" ∷ "Node/worker-1" ∷ "Pod/shop/cart-0" ∷ "StatefulSet/shop/cart"
      ∷ []
unfolding build_graph less_text
node_ids_test = refl

edge_ids_test :
    map edge_id built.0.edges
    ≡ "contains:Cluster->Namespace/shop" ∷ "contains:Cluster->Node/worker-1"
      ∷ "contains:Namespace/shop->StatefulSet/shop/cart"
      ∷ "contains:StatefulSet/shop/cart->Pod/shop/cart-0" ∷ "runs-on:Pod/shop/cart-0->Node/worker-1"
      ∷ []
unfolding build_graph less_text
edge_ids_test = refl

endpoints_for-Once_example :
    ((endpoints_for caches.endpoints "shop" "cart").0 ≡ 2)
    × Once (endpoints_for caches.endpoints "shop" "cart").1
    × ((p : String)
        → elem p (endpoints_for caches.endpoints "shop" "cart").1
          ≡ backs p (find_endpoints "shop" "cart" caches.endpoints))
unfolding find_endpoints
endpoints_for-Once_example = endpoints_for-Once caches.endpoints "shop" "cart"

abbrev pod_kind : String
pod_kind = "Pod"

object_id-injective_example :
    (pod_kind ≡ "Pod") × (cart.namespace ≡ "shop") × (cart.name ≡ "cart-0")
unfolding is_plain
object_id-injective_example =
    object_id-injective pod_kind "Pod" cart.namespace "shop" cart.name "cart-0" refl refl refl refl
      refl refl refl
