-- ===== src/Api/Details.antt =====
-- api.go: from the caches to the graph, from a node of the graph to the dashboard's request, and back
-- to an object.
use pulsebox.Base.{true, subst, arith, eq_iff, false, ◌≡◌, ◌==◌, string_eq, some, ◌∙◌, ap}
use pulsebox.Base.Int.{Time}
use pulsebox.Base.Float.{Float}
use pulsebox.Topology.{Node}
use pulsebox.Collector.Scope.Kept.{All-In, In}
use pulsebox.Collector.Events.{warning_events}
use pulsebox.Collector.Stream.{snapshot}
use pulsebox.Collector.Access.{Collector, refresh}
use pulsebox.Collector.Access.Resources.{
  Object, pod_object, node_object, namespace_object, deployment_object, stateful_set_object,
  daemon_set_object, service_object, claim_object, volume_object,
}
use pulsebox.Collector.Access.Resources.Found.{object_kind, object_name, object_namespace, IsHeld}
use pulsebox.Collector.Access.Shown.{IsNodeOf}
use pulsebox.Collector.Access.Objects.{build_graph-HasNodeOf}
use pulsebox.Collector.Access.Known.{Origin, of_object, of_namespace, of_cluster}
use pulsebox.Collector.Access.Origins.{build_graph-Origin}
use pulsebox.Collector.Build.Roots.{cluster_scope}
use pulsebox.Metrics.Agreement.{snapshot-refresh}
use pulsebox.Api.{json, resource_body, serve_request}
use pulsebox.Api.Asked.{IsAsked}
use pulsebox.Api.Answers.{resource_request, shown-served}

module _ {F : Type 0} ⦃fl : Float F⦄ where
  -- A rebuild leaves the caches.
  refresh-IsHeld :
      (built : Time) (c : Collector F) (o : Object) → IsHeld c o → IsHeld (refresh built c) o
  unfolding refresh
  refresh-IsHeld built c (pod_object o) h = h
  refresh-IsHeld built c (node_object o) h = h
  refresh-IsHeld built c (namespace_object o) h = h
  refresh-IsHeld built c (deployment_object o) h = h
  refresh-IsHeld built c (stateful_set_object o) h = h
  refresh-IsHeld built c (daemon_set_object o) h = h
  refresh-IsHeld built c (service_object o) h = h
  refresh-IsHeld built c (claim_object o) h = h
  refresh-IsHeld built c (volume_object o) h = h

  -- For each object that a lister returns, whose name is not empty and whose namespace is not "-":
  -- the snapshot after a rebuild has its node, and the request that the dashboard makes for that node
  -- is answered 200, with an object of the same kind, namespace and name and the warnings about it.
  pub object-served :
      (built now : Time) (c : Collector F) (o : Object)
      → IsHeld c o
      → (object_name o == "") ≡ false
      → (object_namespace o == "-") ≡ false
      → (n : Node F) × (found : Object) × In n (snapshot (refresh built c).stream).nodes
        × IsNodeOf o n
        × IsAsked (refresh built c) n.kind n.namespace n.name found
        × (serve_request now (resource_request n) (refresh built c)
            ≡ some (
                json 200 (
                  resource_body n.kind n.namespace n.name found (
                    warning_events
                      (refresh built c).events
                      (object_kind found)
                      n.namespace
                      n.name
                      10))))
  object-served built now c o held named plain =
      let (n, i, is) = build_graph-HasNodeOf c built o held in
      let (found, asked, served) =
        shown-served (refresh built c) now n o (refresh-IsHeld built c o held) is.kind_eq
          is.namespace_eq is.name_eq (ap (λ z. z == "") is.name_eq ∙ named)
          (ap (λ z. z == "-") is.namespace_eq ∙ plain) in
      (n, found, rw (snapshot-refresh built c) i, is, asked, served)

  -- In the cluster-wide mode, each node of the snapshot after a rebuild, other than the cluster's and
  -- with a name that is not empty and a namespace that is not "-", can be opened: the request that
  -- the dashboard makes for it is answered 200, with an object of its kind, namespace and name and
  -- the warnings about it.
  pub node-served :
      (built now : Time) (c : Collector F) (n : Node F)
      → cluster_scope c.cfg ≡ true
      → In n (snapshot (refresh built c).stream).nodes
      → (n.kind == "Cluster") ≡ false
      → (n.name == "") ≡ false
      → (n.namespace == "-") ≡ false
      → (found : Object) × IsAsked (refresh built c) n.kind n.namespace n.name found
        × (serve_request now (resource_request n) (refresh built c)
            ≡ some (
                json 200 (
                  resource_body n.kind n.namespace n.name found (
                    warning_events
                      (refresh built c).events
                      (object_kind found)
                      n.namespace
                      n.name
                      10))))
  node-served built now c n wide i other named plain = opened (
      All-In (Origin c) n _ (build_graph-Origin c built)
        (subst (λ g. In n g.nodes) (snapshot-refresh built c) i))
    where
      opened :
          Origin c n
          → (found : Object) × IsAsked (refresh built c) n.kind n.namespace n.name found
            × (serve_request now (resource_request n) (refresh built c)
                ≡ some (
                    json 200 (
                      resource_body n.kind n.namespace n.name found (
                        warning_events
                          (refresh built c).events
                          (object_kind found)
                          n.namespace
                          n.name
                          10))))
      opened (of_object o held is) =
          shown-served (refresh built c) now n o (refresh-IsHeld built c o held) is.kind_eq
            is.namespace_eq is.name_eq named plain
      opened (of_namespace bound kind name) = absurd (ground (arith, wide, bound))
      opened (of_cluster id kind) = absurd (ground (arith, eq_iff n.kind "Cluster"))
