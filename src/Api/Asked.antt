-- ===== src/Api/Asked.antt =====
-- api.go and accessors.go: what `GetResource` finds is what was asked for.
use pulsebox.Base.{
  Bool, sym, String, List, true, false, ◌&&◌, ◌||◌, ◌≡◌, refl, arith, if◌then◌else◌, ◌==◌,
  string_eq, eq_iff, subst, Bool-cases, inl, inr,
}
use pulsebox.Collector.Scope.Kept.{In}
use pulsebox.Collector.Build.Roots.{cluster_scope}
use pulsebox.Collector.Access.{Collector}
use pulsebox.Collector.Access.Resources.{
  lowers_to, Object, pod_object, node_object, namespace_object, deployment_object,
  stateful_set_object, daemon_set_object, service_object, claim_object, volume_object, Access, got,
  get_first, get_resource, watched,
}
use pulsebox.Collector.Access.Resources.Found.{
  object_kind, object_name, object_namespace, is_namespaced, IsHeld, get_first-got,
}
use pulsebox.Api.{canonical_kind}
use pulsebox.Api.Kinds.{
  canonical-pod, canonical-node, canonical-namespace, canonical-deployment, canonical-stateful_set,
  canonical-daemon_set, canonical-service, canonical-claim, canonical-volume,
}

-- An object of the kind, the namespace and the name; a cluster-scoped one has any namespace.
pub record IsAsked {F : Type 0} (c : Collector F) (kind ns name : String) (o : Object)
    : Type 0 where
  pub held : IsHeld c o
  pub kind_eq : object_kind o ≡ canonical_kind kind
  pub name_eq : object_name o ≡ name
  pub namespace_eq : object_namespace o ≡ (if is_namespaced o then ns else "")

watched-got :
    (wide : Bool) (text : String) (found : Access) (o : Object)
    → watched wide text found ≡ got o
    → (wide ≡ true) × (found ≡ got o)
watched-got true text found o h = (refl, h)
watched-got false text found o h = absurd (ground (arith, h))

module _ {F : Type 0} (c : Collector F) (kind ns name : String) where
  is_asked :
      (o : Object)
      → IsHeld c o
      → canonical_kind kind ≡ object_kind o
      → object_name o ≡ name
      → object_namespace o ≡ (if is_namespaced o then ns else "")
      → IsAsked c kind ns name o
  is_asked o i k q p = record { held = i; kind_eq = sym k; name_eq = q; namespace_eq = p }

  -- A namespaced lister, and one that is not, found as soon as each object that it can give is.
  scoped-IsAsked :
      {A : Type 0} (ns_of name_of : A → String) (wrap : A → Object) (xs : List A) (o : Object)
      → ((y : A) → In y xs → ns_of y ≡ ns → name_of y ≡ name → IsAsked c kind ns name (wrap y))
      → get_first (λ y. ns_of y == ns && name_of y == name) wrap xs ≡ got o
      → IsAsked c kind ns name o
  scoped-IsAsked ns_of name_of wrap xs o asked h =
      let (y, i, t, f) = get_first-got _ wrap xs o h in
      let (p, q) = both_eq (ns_of y) (name_of y) t in
      subst (IsAsked c kind ns name) f (asked y i p q)
    where
      both_eq : (a b : String) → (a == ns && b == name) ≡ true → (a ≡ ns) × (b ≡ name)
      both_eq a b t = ground (arith, eq_iff a ns, eq_iff b name)

  wide-IsAsked :
      {A : Type 0} (name_of : A → String) (wrap : A → Object) (xs : List A) (text : String)
      (o : Object)
      → ((y : A)
          → In y xs
          → cluster_scope c.cfg ≡ true
          → name_of y ≡ name
          → IsAsked c kind ns name (wrap y))
      → watched (cluster_scope c.cfg) text (get_first (λ y. name_of y == name) wrap xs) ≡ got o
      → IsAsked c kind ns name o
  wide-IsAsked name_of wrap xs text o asked h =
      let (wide, found) = watched-got (cluster_scope c.cfg) text _ o h in
      let (y, i, t, f) = get_first-got _ wrap xs o found in
      subst (IsAsked c kind ns name) f (asked y i wide ((eq_iff (name_of y) name).0 t))

  -- What `GetResource` finds stands in the cache and is what it was asked for, of the kind that
  -- `canonicalKind` names; where that kind is cluster-scoped, whatever the namespace is.
  pub get_resource-IsAsked :
      (o : Object) → get_resource kind ns name c ≡ got o → IsAsked c kind ns name o
  unfolding get_resource
  get_resource-IsAsked o h = elim (Bool-cases (lowers_to kind "pod")) [
    | inl e ↦
        scoped-IsAsked _ _ pod_object _ o (λ y i p q. is_asked _ i (canonical-pod kind e) q p)
          (rw (e, get_resource) at h)
    | inr e0 ↦ elim (Bool-cases (lowers_to kind "node")) [
      | inl e ↦
          wide-IsAsked _ node_object _ _ o
            (λ y i w q. is_asked _ (i, w) (canonical-node kind e) q refl)
            (rw (e0, e, get_resource) at h)
      | inr e1 ↦ elim (Bool-cases (lowers_to kind "namespace")) [
        | inl e ↦
            wide-IsAsked _ namespace_object _ _ o
              (λ y i w q. is_asked _ (i, w) (canonical-namespace kind e) q refl)
              (rw (e0, e1, e, get_resource) at h)
        | inr e2 ↦ elim (Bool-cases (lowers_to kind "deployment")) [
          | inl e ↦
              scoped-IsAsked _ _ deployment_object _ o
                (λ y i p q. is_asked _ i (canonical-deployment kind e) q p)
                (rw (e0, e1, e2, e, get_resource) at h)
          | inr e3 ↦ elim (Bool-cases (lowers_to kind "statefulset")) [
            | inl e ↦
                scoped-IsAsked _ _ stateful_set_object c.caches.stateful_sets o
                  (λ y i p q. is_asked _ i (canonical-stateful_set kind e) q p)
                  (rw (e0, e1, e2, e3, e, get_resource) at h)
            | inr e4 ↦ elim (Bool-cases (lowers_to kind "daemonset")) [
              | inl e ↦
                  scoped-IsAsked _ _ daemon_set_object c.caches.daemon_sets o
                    (λ y i p q. is_asked _ i (canonical-daemon_set kind e) q p)
                    (rw (e0, e1, e2, e3, e4, e, get_resource) at h)
              | inr e5 ↦ elim (Bool-cases (lowers_to kind "service")) [
                | inl e ↦
                    scoped-IsAsked _ _ service_object _ o
                      (λ y i p q. is_asked _ i (canonical-service kind e) q p)
                      (rw (e0, e1, e2, e3, e4, e5, e, get_resource) at h)
                | inr e6 ↦
                    elim (Bool-cases
                      (lowers_to kind "persistentvolumeclaim" || lowers_to kind "pvc")) [
                        | inl e ↦
                            scoped-IsAsked _ _ claim_object c.caches.claims o
                              (λ y i p q. is_asked _ i (canonical-claim kind e) q p)
                              (rw (e0, e1, e2, e3, e4, e5, e6, e, get_resource) at h)
                        | inr e7 ↦
                            elim (Bool-cases
                              (lowers_to kind "persistentvolume" || lowers_to kind "pv")) [
                                | inl e ↦
                                    wide-IsAsked _ volume_object _ _ o
                                      (λ y i w q.
                                        is_asked _ (i, w) (canonical-volume kind e) q refl)
                                      (rw (e0, e1, e2, e3, e4, e5, e6, e7, e, get_resource) at h)
                                | inr e8 ↦ absurd (
                                    ground (
                                      arith,
                                      rw (e0, e1, e2, e3, e4, e5, e6, e7, e8, get_resource) at h,
                                    ))
                              ]
                      ]
              ]
            ]
          ]
        ]
      ]
    ]
  ]
