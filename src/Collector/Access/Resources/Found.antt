-- ===== src/Collector/Access/Resources/Found.antt =====
-- accessors.go, `GetResource`: what it finds, and how it tells the kinds apart.
use Prim.Native.Char.{code}
use text.Mathlib.TextEquality.{Char-path}
use pulsebox.Base.{
  String, Bool, true, false, List, [], ◌∷◌, ◌≡◌, refl, ap, arith, ◌==◌, string_eq, eq_iff,
  Bool-cases, inl, inr,
}
use pulsebox.Collector.Scope.Kept.{In}
use pulsebox.Collector.Build.Roots.{cluster_scope}
use pulsebox.Collector.Access.{Collector}
use pulsebox.Collector.Access.Resources.{
  lowers_to, Object, pod_object, node_object, namespace_object, deployment_object,
  stateful_set_object, daemon_set_object, service_object, claim_object, volume_object, got,
  get_first,
}

abbrev pub object_kind : Object → String
object_kind (pod_object o) = "Pod"
object_kind (node_object o) = "Node"
object_kind (namespace_object o) = "Namespace"
object_kind (deployment_object o) = "Deployment"
object_kind (stateful_set_object o) = "StatefulSet"
object_kind (daemon_set_object o) = "DaemonSet"
object_kind (service_object o) = "Service"
object_kind (claim_object o) = "PersistentVolumeClaim"
object_kind (volume_object o) = "PersistentVolume"

abbrev pub object_name : Object → String
object_name (pod_object o) = o.name
object_name (node_object o) = o.name
object_name (namespace_object o) = o.name
object_name (deployment_object o) = o.name
object_name (stateful_set_object o) = o.name
object_name (daemon_set_object o) = o.name
object_name (service_object o) = o.name
object_name (claim_object o) = o.name
object_name (volume_object o) = o.name

-- A cluster-scoped object has the namespace "".
abbrev pub object_namespace : Object → String
object_namespace (pod_object o) = o.namespace
object_namespace (node_object o) = ""
object_namespace (namespace_object o) = ""
object_namespace (deployment_object o) = o.namespace
object_namespace (stateful_set_object o) = o.namespace
object_namespace (daemon_set_object o) = o.namespace
object_namespace (service_object o) = o.namespace
object_namespace (claim_object o) = o.namespace
object_namespace (volume_object o) = ""

abbrev pub is_namespaced : Object → Bool
is_namespaced (node_object o) = false
is_namespaced (namespace_object o) = false
is_namespaced (volume_object o) = false
is_namespaced _ = true

-- The object stands in its cache, and its kind is watched.
abbrev pub IsHeld : {F : Type 0} → Collector F → Object → Type 0
IsHeld c (pod_object o) = In o c.caches.pods
IsHeld c (node_object o) = In o c.caches.nodes × (cluster_scope c.cfg ≡ true)
IsHeld c (namespace_object o) = In o c.caches.namespaces × (cluster_scope c.cfg ≡ true)
IsHeld c (deployment_object o) = In o c.caches.deployments
IsHeld c (stateful_set_object o) = In o c.caches.stateful_sets
IsHeld c (daemon_set_object o) = In o c.caches.daemon_sets
IsHeld c (service_object o) = In o c.caches.services
IsHeld c (claim_object o) = In o c.caches.claims
IsHeld c (volume_object o) = In o c.caches.volumes × (cluster_scope c.cfg ≡ true)

-- An object of a cache that passes the test is found, or one before it.
pub get_first-finds :
    {A : Type 0} (test : A → Bool) (wrap : A → Object) (x : A) (xs : List A)
    → In x xs
    → test x ≡ true
    → (y : A) × In y xs × (test y ≡ true) × (get_first test wrap xs ≡ got (wrap y))
unfolding get_first
get_first-finds test wrap x [] i h = elim i [ ]
get_first-finds test wrap x (z ∷ xs) i h = elim (Bool-cases (test z)) [
  | inl e ↦ (z, inl refl, e, rw (e, get_first) refl)
  | inr e ↦ elim i [
    | inl p ↦ absurd (ground (arith, ap test p))
    | inr j ↦
        let (y, k, t, f) = get_first-finds test wrap x xs j h in (y, inr k, t, rw (e, get_first) f)
  ]
]

-- What is found is an object of the cache that passes the test.
pub get_first-got :
    {A : Type 0} (test : A → Bool) (wrap : A → Object) (xs : List A) (o : Object)
    → get_first test wrap xs ≡ got o
    → (y : A) × In y xs × (test y ≡ true) × (wrap y ≡ o)
unfolding get_first
get_first-got test wrap [] o h = absurd (ground (arith, h))
get_first-got test wrap (z ∷ xs) o h = elim (Bool-cases (test z)) [
  | inl e ↦ (z, inl refl, e, ground (arith, rw (e, get_first) at h))
  | inr e ↦
      let (y, k, t, f) = get_first-got test wrap xs o (rw (e, get_first) at h) in (y, inr k, t, f)
]

-- A text is lowered to at most one word.
pub lowers_to_unique : (s a b : String) → lowers_to s a ≡ true → lowers_to s b ≡ true → a ≡ b
unfolding lowers_to
lowers_to_unique String.[] String.[] String.[] p q = refl
lowers_to_unique String.[] (String.◌∷◌ d a) b p q = absurd (ground arith)
lowers_to_unique String.[] a (String.◌∷◌ d b) p q = absurd (ground arith)
lowers_to_unique (String.◌∷◌ c s) String.[] b p q = absurd (ground arith)
lowers_to_unique (String.◌∷◌ c s) a String.[] p q = absurd (ground arith)
lowers_to_unique (String.◌∷◌ c s) (String.◌∷◌ d a) (String.◌∷◌ e b) p q =
    ground (arith, lowers_to_unique s a b, λ (h : code d ≡ code e). Char-path d e h)

pub lowers-other :
    (s a b : String) → (a == b) ≡ false → lowers_to s a ≡ true → lowers_to s b ≡ false
lowers-other s a b h p = elim (Bool-cases (lowers_to s b)) [
  | inl q ↦ absurd (ground (arith, eq_iff a b, lowers_to_unique s a b p q))
  | inr q ↦ q
]
