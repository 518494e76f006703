-- ===== src/Api/Answers.antt =====
-- internal/api/api.go: what the handlers answer, and the request that the dashboard makes for a node,
-- `fetchResource` of internal/web/static/app.js.
use pulsebox.Base.{
  String, true, false, ◌&&◌, List, [], ◌∷◌, ◌≡◌, ◌⊎◌, refl, sym, ap, subst, some, if◌then◌else◌,
  ◌==◌, string_eq, eq_iff, eq_self, Bool-cases, inl, inr,
}
use pulsebox.Base.Int.{Time}
use pulsebox.Topology.{Node}
use pulsebox.Collector.Scope.Kept.{In}
use pulsebox.Collector.Events.{warning_events}
use pulsebox.Collector.Build.Roots.{cluster_scope}
use pulsebox.Collector.Access.{Collector}
use pulsebox.Collector.Access.Resources.{
  lowers_to, Object, AccessError, Access, pod_object, node_object, namespace_object,
  deployment_object, stateful_set_object, daemon_set_object, service_object, claim_object,
  volume_object, got, failed, watched, get_first, get_resource,
}
use pulsebox.Collector.Access.Resources.Found.{
  object_kind, object_name, object_namespace, IsHeld, get_first-finds,
}
use pulsebox.Api.{
  Request, resource, match_path, route, namespace_of, json, error_body, resource_body,
  handle_resource, resource_answer, handle, serve_request,
}
use pulsebox.Api.Asked.{IsAsked, get_resource-IsAsked}

-- `n.namespace || "-"`
unfoldable pub shown_namespace : String → String
shown_namespace ns = if ns == "" then "-" else ns

-- The request of `fetchResource`.
unfoldable pub resource_request : {F : Type 0} → Node F → Request
unfolding shown_namespace
resource_request n = record {
  method = "GET";
  path = "api" ∷ "resource" ∷ n.kind ∷ shown_namespace n.namespace ∷ n.name ∷ [];
  ready = "";
}

namespace_of-shown : (ns : String) → (ns == "-") ≡ false → namespace_of (shown_namespace ns) ≡ ns
unfolding namespace_of shown_namespace
namespace_of-shown ns h = elim (Bool-cases (ns == "")) [
  | inl e ↦ rw (e, shown_namespace) (sym ((eq_iff ns "").0 e))
  | inr e ↦ rw (e, h, shown_namespace, namespace_of) refl
]

shown-nonempty : (ns : String) → (shown_namespace ns == "") ≡ false
unfolding shown_namespace
shown-nonempty ns = elim (Bool-cases (ns == "")) [
  | inl e ↦ rw (e, shown_namespace) refl
  | inr e ↦ rw (e, shown_namespace) e
]

-- The request that the dashboard makes for a node, whose kind and name are not empty and whose
-- namespace is not "-", is routed to `handleResource` with the node's kind and name, and with a
-- namespace that it reads as the node's.
pub route-resource_request :
    {F : Type 0} (n : Node F)
    → (n.kind == "") ≡ false
    → (n.name == "") ≡ false
    → (n.namespace == "-") ≡ false
    → (given : String) × (route (resource_request n) ≡ some (resource n.kind given n.name))
      × (namespace_of given ≡ n.namespace)
unfolding route match_path resource_request
route-resource_request n k m h = (
  shown_namespace n.namespace,
  rw (k, m, shown-nonempty n.namespace, match_path) refl,
  namespace_of-shown n.namespace h,
)

kind-nonempty : (o : Object) → (object_kind o == "") ≡ false
kind-nonempty (pod_object o) = refl
kind-nonempty (node_object o) = refl
kind-nonempty (namespace_object o) = refl
kind-nonempty (deployment_object o) = refl
kind-nonempty (stateful_set_object o) = refl
kind-nonempty (daemon_set_object o) = refl
kind-nonempty (service_object o) = refl
kind-nonempty (claim_object o) = refl
kind-nonempty (volume_object o) = refl

module _ {F : Type 0} (c : Collector F) where
  Serves : String → String → String → Object → String → Type 0
  Serves kind given name o ns =
      handle_resource kind given name c
      ≡ json 200 (resource_body kind ns name o (warning_events c.events (object_kind o) ns name 10))

  handle_resource-found :
      (kind given name : String) (o : Object)
      → get_resource kind (namespace_of given) name c ≡ got o
      → Serves kind given name o (namespace_of given)
  unfolding Serves handle_resource
  handle_resource-found kind given name o p =
      let asked = get_resource-IsAsked c kind (namespace_of given) name o p in
      rw (handle_resource, p, resource_answer, asked.kind_eq) refl

  -- `handleResource` answers 404 with the error that `GetResource` gives; or 200 with an object of
  -- the cache that has the kind, in its canonical spelling, the name and, where it is namespaced, the
  -- namespace that were asked for, and with the warnings about that kind.
  pub handle_resource-answers :
      (kind given name : String)
      → ((e : AccessError) × (get_resource kind (namespace_of given) name c ≡ failed e)
          × (handle_resource kind given name c ≡ json 404 (error_body e)))
        ⊎ ((o : Object) × IsAsked c kind (namespace_of given) name o
            × (handle_resource kind given name c
                ≡ json 200 (
                    resource_body kind
                      (namespace_of given)
                      name
                      o
                      (warning_events c.events (object_kind o) (namespace_of given) name 10))))
  unfolding handle_resource
  handle_resource-answers kind given name =
      let ns = namespace_of given in
      elim (Access-cases (get_resource kind ns name c)) [
        | inl (e, p) ↦ inl (e, p, rw (p, handle_resource, resource_answer) refl)
        | inr (o, p) ↦ inr (
          o,
          get_resource-IsAsked c kind ns name o p,
          unfold Serves in handle_resource-found kind given name o p,
        )
      ]
    where
      Access-cases :
          (a : Access) → ((e : AccessError) × (a ≡ failed e)) ⊎ ((o : Object) × (a ≡ got o))
      Access-cases (failed e) = inl (e, refl)
      Access-cases (got o) = inr (o, refl)

  -- The lister of a namespaced kind finds an object that stands in its cache, and so does that of a
  -- cluster-scoped kind where it is watched.
  scoped-finds :
      {A : Type 0} (ns_of name_of : A → String) (wrap : A → Object) (x : A) (xs : List A)
      → In x xs
      → (o' : Object) × (get_first (λ y. ns_of y == ns_of x && name_of y == name_of x) wrap xs
          ≡ got o')
  scoped-finds ns_of name_of wrap x xs i =
      let (y, _, _, f) =
        get_first-finds (λ y. ns_of y == ns_of x && name_of y == name_of x) wrap x xs i
          (rw (eq_self (ns_of x), eq_self (name_of x)) refl) in
      (wrap y, f)

  wide-finds :
      {A : Type 0} (name_of : A → String) (wrap : A → Object) (text : String) (x : A) (xs : List A)
      → In x xs × (cluster_scope c.cfg ≡ true)
      → (o' : Object) × (watched
            (cluster_scope c.cfg)
            text
            (get_first (λ y. name_of y == name_of x) wrap xs)
          ≡ got o')
  wide-finds name_of wrap text x xs (i, wide) =
      let (y, _, _, f) =
        get_first-finds (λ y. name_of y == name_of x) wrap x xs i (eq_self (name_of x)) in
      (wrap y, rw (wide, f) refl)

  get_resource-finds :
      (o : Object)
      → IsHeld c o
      → (o' : Object) × (get_resource (object_kind o) (object_namespace o) (object_name o) c
          ≡ got o')
  unfolding get_resource lowers_to
  get_resource-finds (pod_object o) h =
      scoped-finds (λ x. x.namespace) (λ x. x.name) pod_object o _ h
  get_resource-finds (node_object o) h = wide-finds (λ x. x.name) node_object _ o _ h
  get_resource-finds (namespace_object o) h = wide-finds (λ x. x.name) namespace_object _ o _ h
  get_resource-finds (deployment_object o) h =
      scoped-finds (λ x. x.namespace) (λ x. x.name) deployment_object o _ h
  get_resource-finds (stateful_set_object o) h =
      scoped-finds (λ x. x.namespace) (λ x. x.name) stateful_set_object o _ h
  get_resource-finds (daemon_set_object o) h =
      scoped-finds (λ x. x.namespace) (λ x. x.name) daemon_set_object o _ h
  get_resource-finds (service_object o) h =
      scoped-finds (λ x. x.namespace) (λ x. x.name) service_object o _ h
  get_resource-finds (claim_object o) h =
      scoped-finds (λ x. x.namespace) (λ x. x.name) claim_object o _ h
  get_resource-finds (volume_object o) h = wide-finds (λ x. x.name) volume_object _ o _ h

  -- The dashboard's request for the node of an object that stands in a cache whose kind is watched is
  -- answered 200, with an object of that kind, namespace and name and the warnings about it. The
  -- object's name is not empty, and its namespace is not "-".
  pub shown-served :
      (now : Time) (n : Node F) (o : Object)
      → IsHeld c o
      → n.kind ≡ object_kind o
      → n.namespace ≡ object_namespace o
      → n.name ≡ object_name o
      → (n.name == "") ≡ false
      → (n.namespace == "-") ≡ false
      → (found : Object) × IsAsked c n.kind n.namespace n.name found
        × (serve_request now (resource_request n) c
            ≡ some (
                json 200 (
                  resource_body n.kind n.namespace n.name found
                    (warning_events c.events (object_kind found) n.namespace n.name 10))))
  unfolding serve_request handle handle_resource
  shown-served now n o held k s m named plain =
      let (given, routed, read) = route-resource_request n (rw k (kind-nonempty o)) named plain in
      let (found, f) = get_resource-finds o held in
      let here = rw (← k, ← s, ← m) at f in
      let answered =
        handle_resource-found n.kind given n.name found
          (subst (λ z. get_resource n.kind z n.name c ≡ got found) (sym read) here) in
      (
        found,
        get_resource-IsAsked c n.kind n.namespace n.name found here,
        rw (routed, serve_request, handle)
            (ap some (unfold Serves in subst (Serves n.kind given n.name found) read answered)),
      )
