-- ===== src/Tests/Answers.antt =====
-- Requests to a collector with one pod.
use pulsebox.Base.{
  inr, trim_space, show_int, All, less_text, ℕ, String, [], ◌∷◌, some, ◌≡◌, ◌⊎◌, refl, inl,
}
use pulsebox.Base.Int.{pos}
use pulsebox.Base.Fixed.{fixed}
use pulsebox.Topology.{Node, node_equal, edge_equal}
use pulsebox.Health.Reasons.{top_reasons}
use pulsebox.Collector.Events.{Event, warning_events}
use pulsebox.Collector.Access.{Collector, new_collector, start_collector}
use pulsebox.Collector.Access.Resources.{
  Object, AccessError, pod_object, unsupported, failed, get_resource,
}
use pulsebox.Collector.Access.Resources.Found.{object_kind}
use pulsebox.Api.{
  resource, route, namespace_of, json, error_body, resource_body, handle_resource, serve_request,
}
use pulsebox.Collector.Scope.Kept.{In}
use pulsebox.Collector.Stream.{snapshot}
use pulsebox.Collector.Access.{refresh}
use pulsebox.Collector.Access.Shown.{IsNodeOf}
use pulsebox.Api.Details.{object-served, node-served}
use pulsebox.Collector.Build.Roots.{build_graph}
use pulsebox.Collector.Access.Known.{Origin}
use pulsebox.Collector.Access.Origins.{build_graph-Origin}
use pulsebox.Api.Asked.{IsAsked}
use pulsebox.Api.Answers.{
  resource_request, route-resource_request, handle_resource-answers, shown-served,
}
use pulsebox.Tests.Builds.{caches, cart, config}

abbrev pub back_off : Event
back_off = record {
  namespace = "shop";
  etype = "Warning";
  kind = "Pod";
  name = "cart-0";
  reason = "BackOff";
  message = "again";
  last_timestamp = pos 5;
  event_time = pos 5;
}

abbrev pub started : Collector ℕ
started = start_collector caches (back_off ∷ []) (pos 7) (new_collector config)

abbrev shown : Node ℕ
shown = record {
  id = "Pod/shop/cart-0";
  kind = "Pod";
  name = "cart-0";
  namespace = "shop";
  health = "healthy";
  score = 1000;
  reasons = [];
  meta = [];
}

route-resource_request_example :
    (given : String) × (route (resource_request shown) ≡ some (resource "Pod" given "cart-0"))
    × (namespace_of given ≡ "shop")
route-resource_request_example = route-resource_request shown refl refl refl

shown-served_test :
    (found : Object) × IsAsked started "Pod" "shop" "cart-0" found
    × (serve_request (pos 9) (resource_request shown) started
        ≡ some (
            json 200 (
              resource_body "Pod" "shop" "cart-0" found
                (warning_events started.events (object_kind found) "shop" "cart-0" 10))))
unfolding start_collector
shown-served_test =
    shown-served started (pos 9) shown (pod_object cart) (inl refl) refl refl refl refl refl

handle_resource-answers_example :
    ((e : AccessError) × (get_resource "cronjob" "" "x" started ≡ failed e)
      × (handle_resource "cronjob" "-" "x" started ≡ json 404 (error_body e)))
    ⊎ ((o : Object) × IsAsked started "cronjob" "" "x" o
        × (handle_resource "cronjob" "-" "x" started
            ≡ json 200 (
                resource_body "cronjob" "" "x" o
                  (warning_events started.events (object_kind o) "" "x" 10))))
unfolding namespace_of
handle_resource-answers_example = handle_resource-answers started "cronjob" "-" "x"

found_test :
    handle_resource "POD" "shop" "cart-0" started
    ≡ json 200 (resource_body "POD" "shop" "cart-0" (pod_object cart) ("BackOff: again" ∷ []))
unfolding handle_resource start_collector
found_test = refl

unsupported_test :
    handle_resource "cronjob" "-" "x" started ≡ json 404 (error_body (unsupported "cronjob"))
unfolding handle_resource
unsupported_test = refl

object-served_example :
    (n : Node ℕ) × (found : Object) × In n (snapshot (refresh (pos 8) started).stream).nodes
    × IsNodeOf (pod_object cart) n
    × IsAsked (refresh (pos 8) started) n.kind n.namespace n.name found
    × (serve_request (pos 9) (resource_request n) (refresh (pos 8) started)
        ≡ some (
            json 200 (
              resource_body n.kind n.namespace n.name found (
                warning_events
                  (refresh (pos 8) started).events
                  (object_kind found)
                  n.namespace
                  n.name
                  10))))
unfolding start_collector
object-served_example = object-served (pos 8) (pos 9) started (pod_object cart) (inl refl) refl refl

abbrev served : Collector ℕ
served = refresh (pos 8) started

abbrev worker_node : Node ℕ
worker_node = record {
  id = "Node/worker-1";
  kind = "Node";
  name = "worker-1";
  namespace = "";
  health = "unknown";
  score = 500;
  reasons = "NodeReady=Unknown (kubelet not reporting)" ∷ [];
  meta = ("schedulable", "true") ∷ ("kubelet", "v1.29.0") ∷ ("roles", "") ∷ [];
}

build_graph-Origin_example :
    All (Origin started) (build_graph started.cfg started.caches (pos 8) started.restarts).0.nodes
build_graph-Origin_example = build_graph-Origin started (pos 8)

node-served_example :
    (found : Object) × IsAsked served "Node" "" "worker-1" found
    × (serve_request (pos 9) (resource_request worker_node) served
        ≡ some (
            json 200 (
              resource_body "Node" "" "worker-1" found
                (warning_events served.events (object_kind found) "" "worker-1" 10))))
unfolding refresh start_collector new_collector build_graph less_text snapshot node_equal
    top_reasons trim_space show_int edge_equal
node-served_example =
    node-served (pos 8) (pos 9) started worker_node refl (inr (inr (inl refl))) refl refl refl
