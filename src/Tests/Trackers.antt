-- ===== src/Tests/Trackers.antt =====
-- The broker with a full channel, the restart tracker and the scoped snapshot at concrete inputs.
use pulsebox.Base.{
  ℕ, zero, suc, ◌+◌, String, true, List, [], ◌∷◌, none, some, ◌≡◌, refl, arith, nat_eq, string_eq,
  All, elem, inl, ◌⊎◌,
}
use pulsebox.Base.Int.{pos, sub_time}
use pulsebox.Base.Dict.{lookup}
use pulsebox.Base.Fixed.{fixed, fixed-FloatLaws}
use pulsebox.Topology.{Node, Edge, Graph, msg_diff, Diff}
use pulsebox.Collector.Broker.{Broker, new_broker, subscribe, broadcast, send}
use pulsebox.Collector.Broker.Delivery.{lookup-closed-broadcast, broadcast_lem}
use pulsebox.Collector.Broker.Valid.{
  IsValid, new_broker-IsValid, subscribe-IsValid, broadcast-IsValid,
}
use pulsebox.Collector.Restarts.{RestartTracker, minutes, observe, prune, pod_rate}
use pulsebox.Collector.Restarts.Rates.{rising-rate, prune-rates}
use pulsebox.Collector.Restarts.Quiet.{rates, quiet-rates}
use pulsebox.Collector.Restarts.Falling.{Falling, rates-Falling}
use pulsebox.Collector.Scope.{is_selected, namespace_snapshot, kept}
use pulsebox.Collector.Scope.Kept.{
  HasNode, IsClosed, In, scoped-IsClosed, scoped-neighbour, scoped-why, cluster-leaks,
}

abbrev pub some_diff : Diff ℕ
some_diff = record {
  dtype = msg_diff;
  upsert_nodes = [];
  upsert_edges = [];
  remove_nodes = "Node/a" ∷ [];
  remove_edges = [];
  timestamp = pos 5;
}

abbrev copies : ℕ → List (Diff ℕ)
copies zero = []
copies (suc n) = some_diff ∷ copies n

-- Subscriber 0 has a full channel, subscriber 1 an empty one.
abbrev two_subscribers : Broker ℕ
two_subscribers = record { subs = (0, copies 32) ∷ (1, []) ∷ []; next = 2; closed = [] }

broadcast_lem_example :
    (lookup 0 (broadcast some_diff two_subscribers).subs ≡ none)
    × (lookup 0 (broadcast some_diff two_subscribers).closed ≡ some (copies 32))
unfolding lookup
broadcast_lem_example = broadcast_lem some_diff two_subscribers 0 (refl, (refl, tt))

lookup-closed-broadcast_test :
    lookup 0 (broadcast some_diff two_subscribers).closed ≡ some (copies 32)
unfolding lookup send
lookup-closed-broadcast_test =
    lookup-closed-broadcast some_diff two_subscribers 0 (copies 32) (refl, (refl, tt)) refl

subscribe-IsValid_test :
    IsValid (subscribe {F = ℕ} new_broker).0
    × (lookup (subscribe {F = ℕ} new_broker).1 (new_broker {F = ℕ}).subs ≡ none)
    × ((subscribe {F = ℕ} new_broker).0.next ≡ (new_broker {F = ℕ}).next + 1)
unfolding new_broker
subscribe-IsValid_test = subscribe-IsValid {F = ℕ} new_broker (omega arith) new_broker-IsValid

broadcast-IsValid_test : IsValid (broadcast some_diff (subscribe new_broker).0)
unfolding new_broker
broadcast-IsValid_test =
    broadcast-IsValid some_diff (subscribe new_broker).0
      (subscribe-IsValid new_broker (omega arith) new_broker-IsValid).0

-- Two containers; one minute is 60000000000 nanoseconds.
abbrev tracker : RestartTracker ℕ
tracker = record {
  samples =
      ("shop/cart-0/app", record { count = pos 3; at = pos 0; rate = 0 })
      ∷ ("shop/old-0/app", record { count = pos 7; at = pos 0; rate = 400 })
      ∷ [];
  pod_rates = ("shop/cart-0", 0) ∷ ("shop/old-0", 400) ∷ [];
}

-- Six more restarts in two minutes: three a minute.
rising-rate_test : (observe "shop/cart-0/app" (pos 9) (pos 120000000000) tracker).1 ≡ 3000
unfolding minutes lookup sub_time
rising-rate_test =
    rising-rate "shop/cart-0/app" (pos 9) (pos 120000000000) tracker
      (record { count = pos 3; at = pos 0; rate = 0 }) refl (omega arith, omega arith)
      (omega arith, omega arith) (omega arith) (omega arith) refl

prune-rates_example :
    (pod_rate "shop/old-0" (prune ("shop/cart-0" ∷ []) ("shop/cart-0/app" ∷ []) tracker) ≡ 0)
    × ((observe "shop/old-0"
          (pos 8)
          (pos 60000000000)
          (prune ("shop/cart-0" ∷ []) ("shop/cart-0/app" ∷ []) tracker)).1
        ≡ 0)
prune-rates_example =
    prune-rates ("shop/cart-0" ∷ []) ("shop/cart-0/app" ∷ []) tracker "shop/old-0" (pos 8)
      (pos 60000000000)

quiet-rates_example :
    All
      (λ r. r ≡ 0)
      (rates "shop/new-0/app"
        ((pos 4, pos 10) ∷ (pos 4, pos 60000000010) ∷ (pos 2, pos 90000000000) ∷ [])
        tracker)
unfolding lookup
quiet-rates_example =
    quiet-rates fixed-FloatLaws "shop/new-0/app" (pos 4) (pos 10)
      ((pos 4, pos 60000000010) ∷ (pos 2, pos 90000000000) ∷ []) tracker refl
      (omega arith, (omega arith, tt))

rates-Falling_example : Falling fixed 400 (
    rates "shop/old-0/app"
      ((pos 7, pos 60000000000) ∷ (pos 7, pos 120000000000) ∷ (pos 2, pos 180000000000) ∷ [])
      tracker)
unfolding lookup
rates-Falling_example =
    rates-Falling fixed-FloatLaws 1 "shop/old-0/app"
      ((pos 7, pos 60000000000) ∷ (pos 7, pos 120000000000) ∷ (pos 2, pos 180000000000) ∷ [])
      tracker (record { count = pos 7; at = pos 0; rate = 400 }) (omega arith) refl refl refl
      (omega arith, (omega arith, (omega arith, tt)))

abbrev node_of : String → String → String → String → Node ℕ
node_of id kind name namespace = record {
  id = id;
  kind = kind;
  name = name;
  namespace = namespace;
  health = "healthy";
  score = 1000;
  reasons = [];
  meta = [];
}

abbrev the_cluster : Node ℕ
the_cluster = node_of "Cluster" "Cluster" "cluster" ""

abbrev to_admin : Edge
to_admin = record {
  id = "contains:Cluster->Namespace/admin";
  source = "Cluster";
  target = "Namespace/admin";
  kind = "contains";
}

-- A cluster with the namespaces admin and shop.
abbrev cluster_graph : Graph ℕ
cluster_graph = record {
  nodes =
      the_cluster
      ∷ node_of "Namespace/admin" "Namespace" "admin" ""
      ∷ node_of "Namespace/shop" "Namespace" "shop" ""
      ∷ [];
  edges = to_admin ∷ [];
  updated_at = pos 1;
}

scoped-IsClosed_test :
    IsClosed
      (namespace_snapshot "shop" cluster_graph).nodes
      (namespace_snapshot "shop" cluster_graph).edges
scoped-IsClosed_test = scoped-IsClosed "shop" cluster_graph ((refl, refl), tt)

scoped-neighbour_test :
    HasNode "Cluster" (namespace_snapshot "shop" cluster_graph).nodes
    × HasNode "Namespace/admin" (namespace_snapshot "shop" cluster_graph).nodes
unfolding is_selected
scoped-neighbour_test =
    scoped-neighbour "shop" cluster_graph the_cluster to_admin (inl refl) refl (inl refl) refl refl

scoped-why_test :
    HasNode "Namespace/shop" cluster_graph.nodes
    × (((n : Node ℕ) × In n cluster_graph.nodes
          × (is_selected "shop" n ≡ true)
          × (n.id ≡ "Namespace/shop"))
        ⊎ ((e : Edge) × In e cluster_graph.edges
            × (e.target ≡ "Namespace/shop")
            × (elem e.source (kept "shop" cluster_graph) ≡ true)))
unfolding namespace_snapshot
scoped-why_test = scoped-why "shop" cluster_graph "Namespace/shop" refl

cluster-leaks_example : HasNode "Namespace/admin" (namespace_snapshot "shop" cluster_graph).nodes
cluster-leaks_example =
    cluster-leaks "shop" cluster_graph the_cluster to_admin (inl refl) refl (inl refl) refl refl
