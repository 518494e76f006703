-- ===== src/Metrics/Labels.antt =====
-- metrics.go: each sample has as many label values as its description has label names, which
-- `MustNewConstMetric` panics without, and a description that `Describe` sends.
use pulsebox.Base.{
  String, List, [], ◌∷◌, ◌++◌, ◌≡◌, refl, ◌==◌, string_eq, if◌then◌else◌, All, length, Bool-cases,
  inl, inr, Option, none, some,
}
use pulsebox.Base.Int.{ℤ, Time}
use pulsebox.Base.Dict.{Dict}
use pulsebox.Base.Float.{Float}
use pulsebox.K8s.{ContainerStatus, KubeNode, KubePod, KubeVolume, KubeClaim, KubeService}
use pulsebox.Topology.{Node}
use pulsebox.Collector.Stream.{snapshot}
use pulsebox.Collector.Access.{Collector, node_list, volume_list}
use pulsebox.Metrics.Descs.{Desc, describe}
use pulsebox.Metrics.{
  Sample, conditions_map, node_samples, condition_samples, pod_samples, restart_samples,
  workload_samples, deployment_samples, stateful_set_samples, daemon_set_samples, volume_samples,
  claim_samples, service_samples, rollup_samples, each, flatten, metric_loops, collect_metrics,
}

pub All-append :
    {A : Type 0} (P : A → Type 0) (xs ys : List A) → All P xs → All P ys → All P (xs ++ ys)
All-append P [] ys p q = q
All-append P (x ∷ xs) ys p q = (p.0, All-append P xs ys p.1 q)

pub All-each :
    {A F : Type 0} (P : Sample F → Type 0) (samples : A → List (Sample F)) (xs : List A)
    → ((x : A) → All P (samples x))
    → All P (each samples xs)
unfolding each
All-each P samples [] h = tt
All-each P samples (x ∷ xs) h = All-append P (samples x) _ (h x) (All-each P samples xs h)

pub All-flatten :
    {A : Type 0} (P : A → Type 0) (lists : List (List A))
    → All (All P) lists
    → All P (flatten lists)
unfolding flatten
All-flatten P [] h = tt
All-flatten P (xs ∷ lists) h = All-append P xs _ h.0 (All-flatten P lists h.1)

-- A proof for the head of a list, and one for the rest.
infixr 5 ◌&◌
abbrev pub ◌&◌ : {A B : Type 0} → A → B → A × B
a & b = (a, b)

-- The label names of the description with a name.
abbrev pub labels_of : String → List Desc → Option (List String)
labels_of name [] = none
labels_of name (d ∷ ds) = if d.name == name then some d.labels else labels_of name ds

-- A sample that the registry takes.
pub record IsLabelled {F : Type 0} (s : Sample F) : Type 0 where
  pub described : labels_of s.desc.name describe ≡ some s.desc.labels
  pub arity : length s.labels ≡ length s.desc.labels

module _ (F : Type 0) ⦃fl : Float F⦄ where
  condition_samples-IsLabelled :
      (name : String) (conds : Dict String String) (ts : List String)
      → All (IsLabelled {F = F}) (condition_samples name conds ts)
  unfolding condition_samples describe
  condition_samples-IsLabelled name conds [] = tt
  condition_samples-IsLabelled name conds (t ∷ ts) =
      (record { described = refl; arity = refl }, condition_samples-IsLabelled name conds ts)

  restart_samples-IsLabelled :
      (p : KubePod) (css : List ContainerStatus) → All (IsLabelled {F = F}) (restart_samples p css)
  unfolding restart_samples describe
  restart_samples-IsLabelled p [] = tt
  restart_samples-IsLabelled p (cs ∷ css) =
      (record { described = refl; arity = refl }, restart_samples-IsLabelled p css)

  node_samples-IsLabelled : (n : KubeNode) → All (IsLabelled {F = F}) (node_samples n)
  unfolding node_samples describe
  node_samples-IsLabelled n = (
    record { described = refl; arity = refl },
    condition_samples-IsLabelled n.name (conditions_map n.conditions [])
        ("MemoryPressure" ∷ "DiskPressure" ∷ "PIDPressure" ∷ "NetworkUnavailable" ∷ []),
  )

  pod_samples-IsLabelled :
      (c : Collector F) (p : KubePod) → All (IsLabelled {F = F}) (pod_samples c p)
  unfolding pod_samples describe
  pod_samples-IsLabelled c p = (
    record { described = refl; arity = refl },
    (record { described = refl; arity = refl }, restart_samples-IsLabelled p p.container_statuses),
  )

  workload_samples-IsLabelled :
      (kind ns name : String) (ready desired : ℤ)
      → All (IsLabelled {F = F}) (workload_samples kind ns name ready desired)
  unfolding workload_samples describe
  workload_samples-IsLabelled kind ns name ready desired =
      (record { described = refl; arity = refl }, (record { described = refl; arity = refl }, tt))

  volume_samples-IsLabelled : (v : KubeVolume) → All (IsLabelled {F = F}) (volume_samples v)
  unfolding volume_samples describe
  volume_samples-IsLabelled v = (record { described = refl; arity = refl }, tt)

  claim_samples-IsLabelled :
      (now : Time) (pvc : KubeClaim) → All (IsLabelled {F = F}) (claim_samples now pvc)
  unfolding claim_samples describe
  claim_samples-IsLabelled now pvc =
      (record { described = refl; arity = refl }, (record { described = refl; arity = refl }, tt))

  service_samples-IsLabelled :
      (c : Collector F) (svc : KubeService) → All (IsLabelled {F = F}) (service_samples c svc)
  unfolding service_samples describe
  service_samples-IsLabelled c svc = (record { described = refl; arity = refl }, tt)

  rollup_samples-IsLabelled : (n : Node F) → All (IsLabelled {F = F}) (rollup_samples n)
  unfolding rollup_samples describe
  rollup_samples-IsLabelled n = elim (Bool-cases (n.kind == "Namespace")) [
    | inl e ↦ rw (e, rollup_samples) (record { described = refl; arity = refl }, tt)
    | inr e ↦ elim (Bool-cases (n.kind == "Cluster")) [
      | inl f ↦ rw (e, f, rollup_samples) (record { described = refl; arity = refl }, tt)
      | inr f ↦ rw (e, f, rollup_samples) tt
    ]
  ]

module _ {F : Type 0} ⦃fl : Float F⦄ where
  -- Every sample of a scrape has a description that `Describe` sends, and as many label values as
  -- that has label names: no sample makes the registry panic.
  pub collect-IsLabelled :
      (now : Time) (c : Collector F) → All (IsLabelled {F = F}) (collect_metrics now c)
  unfolding collect_metrics metric_loops deployment_samples stateful_set_samples daemon_set_samples
      describe
  collect-IsLabelled now c = (
    record { described = refl; arity = refl },
    All-flatten IsLabelled (metric_loops now c) (
        All-each IsLabelled node_samples (node_list c) (node_samples-IsLabelled F)
        & All-each IsLabelled (pod_samples c) c.caches.pods (pod_samples-IsLabelled F c)
        & All-each IsLabelled deployment_samples c.caches.deployments
            (λ d. workload_samples-IsLabelled F "Deployment" d.namespace d.name d.ready_replicas _)
        & All-each IsLabelled stateful_set_samples c.caches.stateful_sets
            (λ s. workload_samples-IsLabelled F "StatefulSet" s.namespace s.name s.ready_replicas _)
        & All-each IsLabelled daemon_set_samples c.caches.daemon_sets
            (λ s. workload_samples-IsLabelled F "DaemonSet" s.namespace s.name s.number_ready _)
        & All-each IsLabelled volume_samples (volume_list c) (volume_samples-IsLabelled F)
        & All-each IsLabelled (claim_samples now) c.caches.claims (claim_samples-IsLabelled F now)
        & All-each IsLabelled (service_samples c) c.caches.services (service_samples-IsLabelled F c)
        & All-each IsLabelled rollup_samples (snapshot c.stream).nodes (rollup_samples-IsLabelled F)
        & tt),
  )
