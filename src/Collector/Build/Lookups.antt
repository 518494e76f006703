-- ===== src/Collector/Build/Lookups.antt =====
-- graph.go: `workloadIDForPod` and `endpointsFor`. A lister is the list of the objects in its cache.
use pulsebox.Base.{
  ℕ, ◌+◌, String, ◌&&◌, not, List, [], ◌∷◌, ◌++◌, Option, none, some, if◌then◌else◌, ◌==◌,
  string_eq, elem, length,
}
use pulsebox.K8s.{OwnerReference, KubePod, KubeReplicaSet, TargetRef, EndpointSubset, KubeEndpoints}
use pulsebox.Collector.Build.{object_id}

-- `rsLister.ReplicaSets(ns).Get(name)`
unfoldable pub find_replica_set : String → String → List KubeReplicaSet → Option KubeReplicaSet
find_replica_set ns name [] = none
find_replica_set ns name (rs ∷ rest) =
    if rs.namespace == ns && rs.name == name then some rs else find_replica_set ns name rest

-- The first owner that is a Deployment.
unfoldable pub deployment_owner : String → List OwnerReference → Option String
unfolding object_id
deployment_owner ns [] = none
deployment_owner ns (o ∷ rest) =
    if o.kind == "Deployment"
    then some (object_id "Deployment" ns o.name)
    else deployment_owner ns rest

owner_id : List KubeReplicaSet → String → OwnerReference → Option String
unfolding find_replica_set deployment_owner object_id
owner_id sets ns o =
    if o.kind == "ReplicaSet"
    then elim (find_replica_set ns o.name sets) [
      | none ↦ none
      | some rs ↦ deployment_owner ns rs.owners
    ]
    else if o.kind == "StatefulSet"
    then some (object_id "StatefulSet" ns o.name)
    else if o.kind == "DaemonSet"
    then some (object_id "DaemonSet" ns o.name)
    else none

-- The loop over the owners.
unfoldable pub workload_of : List KubeReplicaSet → String → List OwnerReference → Option String
unfolding owner_id
workload_of sets ns [] = none
workload_of sets ns (o ∷ rest) = elim (owner_id sets ns o) [
  | some id ↦ some id
  | none ↦ workload_of sets ns rest
]

unfoldable pub workload_id_for_pod : List KubeReplicaSet → KubePod → Option String
unfolding workload_of
workload_id_for_pod sets pod = workload_of sets pod.namespace pod.owners

unfoldable pub find_endpoints : String → String → List KubeEndpoints → Option KubeEndpoints
find_endpoints ns name [] = none
find_endpoints ns name (ep ∷ rest) =
    if ep.namespace == ns && ep.name == name then some ep else find_endpoints ns name rest

-- `collect`: the names so far are also the keys of `seen`.
unfoldable pub collect : List (Option TargetRef) → List String → List String
collect [] names = names
collect (none ∷ rest) names = collect rest names
collect (some t ∷ rest) names =
    if t.kind == "Pod" && not (elem t.name names)
    then collect rest (names ++ t.name ∷ [])
    else collect rest names

unfoldable pub collect_subsets : List EndpointSubset → ℕ → List String → ℕ × List String
unfolding collect
collect_subsets [] ready names = (ready, names)
collect_subsets (s ∷ rest) ready names =
    collect_subsets rest (ready + length s.addresses)
      (collect s.not_ready_addresses (collect s.addresses names))

-- The number of ready addresses, and the names of the pods.
unfoldable pub endpoints_for : List KubeEndpoints → String → String → ℕ × List String
unfolding find_endpoints collect_subsets
endpoints_for eps ns name = elim (find_endpoints ns name eps) [
  | none ↦ (0, [])
  | some ep ↦ collect_subsets ep.subsets 0 []
]
