-- ===== src/Collector/Access/Resources.antt =====
-- internal/collector/accessors.go: `GetResource`.
pub mod Found
use Prim.Native.Char.{Char, code}
use Prim.Native.String
use pulsebox.Base.{
  ℕ, String, Bool, true, false, ◌&&◌, ◌||◌, ◌+◌, List, [], ◌∷◌, Option, none, some, leb, nat_beq,
  if◌then◌else◌, ◌==◌, string_eq,
}
use pulsebox.K8s.{
  KubeNode, KubeVolume, KubeDeployment, KubeStatefulSet, KubeDaemonSet, KubeClaim, KubeService,
  KubePod, KubeNamespace,
}
use pulsebox.Collector.Build.Roots.{cluster_scope}
use pulsebox.Collector.Access.{Collector}

-- unicode.ToLower, as far as it gives a letter of ASCII: the capitals, the dotted capital I and the
-- Kelvin sign. Any other character is lowered to one outside ASCII, or is in ASCII and kept.
unfoldable pub lower_code : Char → ℕ
lower_code c =
    let n = code c in
    if leb 65 n && leb n 90
    then n + 32
    else if nat_beq n 304
    then 105
    else if nat_beq n 8490
    then 107
    else n

-- `strings.ToLower(s) == word`, for a word in ASCII.
unfoldable pub lowers_to : String → String → Bool
unfolding lower_code
lowers_to String.[] String.[] = true
lowers_to String.[] (String.◌∷◌ d word) = false
lowers_to (String.◌∷◌ c s) String.[] = false
lowers_to (String.◌∷◌ c s) (String.◌∷◌ d word) = nat_beq (lower_code c) (code d) && lowers_to s word

-- The object that is returned.
pub data Object : Type 0 where
  pod_object : KubePod → Object
  node_object : KubeNode → Object
  namespace_object : KubeNamespace → Object
  deployment_object : KubeDeployment → Object
  stateful_set_object : KubeStatefulSet → Object
  daemon_set_object : KubeDaemonSet → Object
  service_object : KubeService → Object
  claim_object : KubeClaim → Object
  volume_object : KubeVolume → Object

-- The errors: a missing object, which the lister reports; a kind that is not watched, with the text;
-- and the kind of `unsupported kind %q`.
pub data AccessError : Type 0 where
  not_found : AccessError
  not_watched : String → AccessError
  unsupported : String → AccessError

pub data Access : Type 0 where
  got : Object → Access
  failed : AccessError → Access

-- `lister.Get(name)`, and `lister.Pods(ns).Get(name)` and its like: the first object of the cache that
-- passes a test.
unfoldable pub get_first {ℓ} : {A : Type ℓ} → (A → Bool) → (A → Object) → List A → Access
get_first test wrap [] = failed not_found
get_first test wrap (x ∷ xs) = if test x then got (wrap x) else get_first test wrap xs

abbrev pub watched : Bool → String → Access → Access
watched wide text found = if wide then found else failed (not_watched text)

module _ {F : Type 0} where
  unfoldable pub get_resource : String → String → String → Collector F → Access
  unfolding lowers_to get_first cluster_scope
  get_resource kind ns name c =
      let wide = cluster_scope c.cfg in
      if lowers_to kind "pod"
      then get_first (λ o. o.namespace == ns && o.name == name) pod_object c.caches.pods
      else if lowers_to kind "node"
      then watched wide "nodes not watched in namespaced mode"
          (get_first (λ o. o.name == name) node_object c.caches.nodes)
      else if lowers_to kind "namespace"
      then watched wide "namespaces not watched in namespaced mode"
          (get_first (λ o. o.name == name) namespace_object c.caches.namespaces)
      else if lowers_to kind "deployment"
      then get_first (λ o. o.namespace == ns && o.name == name) deployment_object
          c.caches.deployments
      else if lowers_to kind "statefulset"
      then get_first (λ o. o.namespace == ns && o.name == name) stateful_set_object
          c.caches.stateful_sets
      else if lowers_to kind "daemonset"
      then get_first (λ o. o.namespace == ns && o.name == name) daemon_set_object
          c.caches.daemon_sets
      else if lowers_to kind "service"
      then get_first (λ o. o.namespace == ns && o.name == name) service_object c.caches.services
      else if lowers_to kind "persistentvolumeclaim" || lowers_to kind "pvc"
      then get_first (λ o. o.namespace == ns && o.name == name) claim_object c.caches.claims
      else if lowers_to kind "persistentvolume" || lowers_to kind "pv"
      then watched wide "persistentvolumes not watched in namespaced mode"
          (get_first (λ o. o.name == name) volume_object c.caches.volumes)
      else failed (unsupported kind)
