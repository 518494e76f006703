-- ===== src/Metrics/Items.antt =====
-- metrics.go: the series that each loop of `Collect` sends for an object: its number, its key, and that
-- none stands twice.
use pulsebox.Base.{
  String, false, List, [], ◌∷◌, ◌≡◌, refl, arith, ◌==◌, string_eq, All, Bool-cases, inl, inr,
}
use pulsebox.Base.Int.{ℤ, Time}
use pulsebox.Base.Float.{Float}
use pulsebox.K8s.{ContainerStatus, KubeNode, KubePod, KubeVolume, KubeClaim, KubeService}
use pulsebox.Health.{pod_phase_value}
use pulsebox.Health.Pods.{pod}
use pulsebox.Topology.{Node}
use pulsebox.Collector.Access.{Collector, restart_rate}
use pulsebox.Metrics.Descs.{pod_health, pod_restart_rate}
use pulsebox.Metrics.Labels.{◌&◌}
use pulsebox.Metrics.{
  Sample, gauge, condition_samples, node_samples, pod_samples, restart_sample, restart_samples,
  workload_samples, volume_samples, claim_samples, service_samples, rollup_samples,
}
use pulsebox.Metrics.Series.{same_labels, same_series, SeriesOnce, KeysOnce}
use pulsebox.Metrics.Keys.{
  kind_number, loop_number, first_labels, workload_labels, rollup_labels, rollup_key,
}

module _ (F : Type 0) ⦃fl : Float F⦄ where
  pub node_samples-once : (n : KubeNode) → SeriesOnce {F = F} (node_samples n)
  unfolding node_samples condition_samples
  node_samples-once n = ground arith

  pub node_samples-key :
      (n : KubeNode)
      → All (λ (s : Sample F). first_labels 1 s.desc.name s.labels ≡ n.name ∷ []) (node_samples n)
  unfolding node_samples condition_samples first_labels
  node_samples-key n = refl & refl & refl & refl & refl & tt

  pub node_samples-number :
      (n : KubeNode) → All (λ (s : Sample F). loop_number s.desc.name s.labels ≡ 1) (node_samples n)
  unfolding node_samples condition_samples loop_number
  node_samples-number n = refl & refl & refl & refl & refl & tt

  -- The samples of containers with other names.
  restart_samples-apart :
      (p : KubePod) (cs : ContainerStatus) (css : List ContainerStatus) (s : Sample F)
      → s.desc.name ≡ "pulsebox_pod_container_restarts_total"
      → s.labels ≡ p.namespace ∷ p.name ∷ cs.name ∷ []
      → All (λ d. same_labels (cs.name ∷ []) (d.name ∷ []) ≡ false) css
      → All (λ t. same_series s t ≡ false) (restart_samples p css)
  unfolding restart_samples
  restart_samples-apart p cs [] s n l h = tt
  restart_samples-apart p cs (d ∷ css) s n l h =
      rw (n, l) (ground (arith, h.0)) & restart_samples-apart p cs css s n l h.1

  restart_samples-other :
      (p : KubePod) (css : List ContainerStatus) (s : Sample F)
      → (s.desc.name == "pulsebox_pod_container_restarts_total") ≡ false
      → All (λ t. same_series s t ≡ false) (restart_samples p css)
  unfolding restart_samples
  restart_samples-other p [] s h = tt
  restart_samples-other p (cs ∷ css) s h = ground arith & restart_samples-other p css s h

  pub restart_samples-once :
      (p : KubePod) (css : List ContainerStatus)
      → KeysOnce (λ cs. cs.name ∷ []) css
      → SeriesOnce {F = F} (restart_samples p css)
  unfolding restart_samples
  restart_samples-once p [] h = tt
  restart_samples-once p (cs ∷ css) h =
      restart_samples-apart p cs css (restart_sample p cs) refl refl h.0
      & restart_samples-once p css h.1

  pub pod_samples-once :
      (c : Collector F) (p : KubePod)
      → KeysOnce (λ cs. cs.name ∷ []) p.container_statuses
      → SeriesOnce (pod_samples c p)
  unfolding pod_samples
  pod_samples-once c p h =
      let r = restart_rate p.namespace p.name c in
      let health =
        gauge pod_health (pod_phase_value (pod p r).state)
          (p.namespace ∷ p.name ∷ p.node_name ∷ p.phase ∷ []) in
      let rate = gauge pod_restart_rate r (p.namespace ∷ p.name ∷ []) in
      (refl & restart_samples-other p p.container_statuses health refl)
      & restart_samples-other p p.container_statuses rate refl
      & restart_samples-once p p.container_statuses h

  pub restart_samples-key :
      (p : KubePod) (css : List ContainerStatus)
      → All
          (λ (s : Sample F). first_labels 2 s.desc.name s.labels ≡ p.namespace ∷ p.name ∷ [])
          (restart_samples p css)
  unfolding restart_samples first_labels
  restart_samples-key p [] = tt
  restart_samples-key p (cs ∷ css) = refl & restart_samples-key p css

  pub pod_samples-key :
      (c : Collector F) (p : KubePod)
      → All (λ s. first_labels 2 s.desc.name s.labels ≡ p.namespace ∷ p.name ∷ []) (pod_samples c p)
  unfolding pod_samples first_labels
  pod_samples-key c p = refl & refl & restart_samples-key p p.container_statuses

  pub restart_samples-number :
      (p : KubePod) (css : List ContainerStatus)
      → All (λ (s : Sample F). loop_number s.desc.name s.labels ≡ 2) (restart_samples p css)
  unfolding restart_samples loop_number
  restart_samples-number p [] = tt
  restart_samples-number p (cs ∷ css) = refl & restart_samples-number p css

  pub pod_samples-number :
      (c : Collector F) (p : KubePod)
      → All (λ s. loop_number s.desc.name s.labels ≡ 2) (pod_samples c p)
  unfolding pod_samples loop_number
  pod_samples-number c p = refl & refl & restart_samples-number p p.container_statuses

  pub workload_samples-once :
      (kind ns name : String) (ready desired : ℤ)
      → SeriesOnce {F = F} (workload_samples kind ns name ready desired)
  unfolding workload_samples
  workload_samples-once kind ns name ready desired = (refl, tt) & tt & tt

  pub workload_samples-key :
      (kind ns name : String) (ready desired : ℤ)
      → All
          (λ (s : Sample F). workload_labels s.desc.name s.labels ≡ ns ∷ name ∷ [])
          (workload_samples kind ns name ready desired)
  unfolding workload_samples workload_labels
  workload_samples-key kind ns name ready desired = refl & refl & tt

  pub workload_samples-number :
      (kind ns name : String) (ready desired : ℤ)
      → All
          (λ (s : Sample F). loop_number s.desc.name s.labels ≡ kind_number (ns ∷ kind ∷ name ∷ []))
          (workload_samples kind ns name ready desired)
  unfolding workload_samples loop_number
  workload_samples-number kind ns name ready desired = refl & refl & tt

  pub volume_samples-key :
      (v : KubeVolume)
      → All (λ (s : Sample F). first_labels 1 s.desc.name s.labels ≡ v.name ∷ []) (volume_samples v)
  unfolding volume_samples first_labels
  volume_samples-key v = refl & tt

  pub claim_samples-once : (now : Time) (c : KubeClaim) → SeriesOnce {F = F} (claim_samples now c)
  unfolding claim_samples
  claim_samples-once now c = (refl, tt) & tt & tt

  pub claim_samples-key :
      (now : Time) (c : KubeClaim)
      → All
          (λ (s : Sample F). first_labels 2 s.desc.name s.labels ≡ c.namespace ∷ c.name ∷ [])
          (claim_samples now c)
  unfolding claim_samples first_labels
  claim_samples-key now c = refl & refl & tt

  pub service_samples-key :
      (c : Collector F) (svc : KubeService)
      → All
          (λ s. first_labels 2 s.desc.name s.labels ≡ svc.namespace ∷ svc.name ∷ [])
          (service_samples c svc)
  unfolding service_samples first_labels
  service_samples-key c svc = refl & tt

  pub rollup_samples-once : (n : Node F) → SeriesOnce (rollup_samples n)
  unfolding rollup_samples
  rollup_samples-once n = elim (Bool-cases (n.kind == "Namespace")) [
    | inl e ↦ rw (e, rollup_samples) (tt, tt)
    | inr e ↦ elim (Bool-cases (n.kind == "Cluster")) [
      | inl f ↦ rw (e, f, rollup_samples) (tt, tt)
      | inr f ↦ rw (e, f, rollup_samples) tt
    ]
  ]

  pub rollup_samples-key :
      (n : Node F) → All (λ s. rollup_labels s.desc.name s.labels ≡ rollup_key n) (rollup_samples n)
  unfolding rollup_samples rollup_labels
  rollup_samples-key n = elim (Bool-cases (n.kind == "Namespace")) [
    | inl e ↦ rw (e, rollup_samples) (refl, tt)
    | inr e ↦ elim (Bool-cases (n.kind == "Cluster")) [
      | inl f ↦ rw (e, f, rollup_samples) (refl, tt)
      | inr f ↦ rw (e, f, rollup_samples) tt
    ]
  ]

  pub rollup_samples-number :
      (n : Node F) → All (λ s. loop_number s.desc.name s.labels ≡ 9) (rollup_samples n)
  unfolding rollup_samples loop_number
  rollup_samples-number n = elim (Bool-cases (n.kind == "Namespace")) [
    | inl e ↦ rw (e, rollup_samples) (refl, tt)
    | inr e ↦ elim (Bool-cases (n.kind == "Cluster")) [
      | inl f ↦ rw (e, f, rollup_samples) (refl, tt)
      | inr f ↦ rw (e, f, rollup_samples) tt
    ]
  ]
