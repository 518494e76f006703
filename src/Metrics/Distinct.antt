-- ===== src/Metrics/Distinct.antt =====
-- metrics.go: a scrape has no series twice, if the caches have no object twice.
use pulsebox.Base.{ℕ, String, List, [], ◌∷◌, ◌≡◌, refl, string_eq, All}
use pulsebox.Base.Int.{ℤ, Time}
use pulsebox.Base.Float.{Float}
use pulsebox.K8s.{KubePod}
use pulsebox.Health.Workloads.{desired_replicas}
use pulsebox.Collector.Stream.{snapshot}
use pulsebox.Collector.Access.{Collector, node_list, volume_list}
use pulsebox.Metrics.Descs.{collector_synced}
use pulsebox.Metrics.Labels.{◌&◌}
use pulsebox.Metrics.{
  Sample, flag, gauge, node_samples, pod_samples, workload_samples, deployment_samples,
  stateful_set_samples, daemon_set_samples, volume_samples, claim_samples, service_samples,
  rollup_samples, each, flatten, metric_loops, collect_metrics,
}
use pulsebox.Metrics.Series.{SeriesOnce, KeysOnce, each-SeriesOnce, flatten-SeriesOnce}
use pulsebox.Metrics.Keys.{
  kind_number, loop_number, first_labels, workload_labels, rollup_labels, rollup_key,
}
use pulsebox.Metrics.Items.{
  node_samples-once, node_samples-key, node_samples-number, pod_samples-once, pod_samples-key,
  pod_samples-number, workload_samples-once, workload_samples-key, workload_samples-number,
  volume_samples-key, claim_samples-once, claim_samples-key, service_samples-key,
  rollup_samples-once, rollup_samples-key, rollup_samples-number,
}
use pulsebox.Metrics.Labels.{All-each}

-- No two objects of a cache have the same namespace and name, no two containers of a pod the same
-- name, and no two nodes of the snapshot the same key.
pub record IsNamed {F : Type 0} (c : Collector F) : Type 0 where
  pub nodes : KeysOnce (λ n. n.name ∷ []) (node_list c)
  pub pods : KeysOnce (λ p. p.namespace ∷ p.name ∷ []) c.caches.pods
  pub containers : All (λ p. KeysOnce (λ cs. cs.name ∷ []) p.container_statuses) c.caches.pods
  pub deployments : KeysOnce (λ d. d.namespace ∷ d.name ∷ []) c.caches.deployments
  pub stateful_sets : KeysOnce (λ s. s.namespace ∷ s.name ∷ []) c.caches.stateful_sets
  pub daemon_sets : KeysOnce (λ s. s.namespace ∷ s.name ∷ []) c.caches.daemon_sets
  pub volumes : KeysOnce (λ v. v.name ∷ []) (volume_list c)
  pub claims : KeysOnce (λ p. p.namespace ∷ p.name ∷ []) c.caches.claims
  pub services : KeysOnce (λ s. s.namespace ∷ s.name ∷ []) c.caches.services
  pub rollups : KeysOnce rollup_key (snapshot c.stream).nodes

All-each_one : {A : Type 0} (P : A → Type 0) (xs : List A) → ((x : A) → P x) → All P xs
All-each_one P [] h = tt
All-each_one P (x ∷ xs) h = (h x, All-each_one P xs h)

module _ {F : Type 0} ⦃fl : Float F⦄ where
  -- A loop over objects that are apart, each of which sends series of that loop.
  looped :
      {A : Type 0} (k : ℕ) (key : A → List String) (part : String → List String → List String)
      (samples : A → List (Sample F)) (xs : List A)
      → ((x : A) → All (λ s. part s.desc.name s.labels ≡ key x) (samples x))
      → ((x : A) → All (λ s. loop_number s.desc.name s.labels ≡ k) (samples x))
      → All (λ x. SeriesOnce (samples x)) xs
      → KeysOnce key xs
      → SeriesOnce (each samples xs)
        × All (λ s. loop_number s.desc.name s.labels ≡ k) (each samples xs)
  looped k key part samples xs of_key of_loop own once = (
    each-SeriesOnce key part samples xs of_key own once,
    All-each (λ s. loop_number s.desc.name s.labels ≡ k) samples xs of_loop,
  )

module _ (F : Type 0) ⦃fl : Float F⦄ where
  workloads_looped :
      {A : Type 0} (kind : String) (ns_of name_of : A → String) (ready desired : A → ℤ)
      (xs : List A)
      → KeysOnce (λ x. ns_of x ∷ name_of x ∷ []) xs
      → SeriesOnce
          (each (λ x. workload_samples {F = F} kind (ns_of x) (name_of x) (ready x) (desired x)) xs)
        × All
            (λ s. loop_number s.desc.name s.labels ≡ kind_number ("" ∷ kind ∷ []))
            (each
              (λ x. workload_samples {F = F} kind (ns_of x) (name_of x) (ready x) (desired x))
              xs)
  unfolding kind_number
  workloads_looped kind ns_of name_of ready desired xs once =
      looped (kind_number ("" ∷ kind ∷ [])) (λ x. ns_of x ∷ name_of x ∷ []) workload_labels _ xs
        (λ x. workload_samples-key F kind (ns_of x) (name_of x) (ready x) (desired x))
        (λ x. workload_samples-number F kind (ns_of x) (name_of x) (ready x) (desired x))
        (All-each_one _ xs
          (λ x. workload_samples-once F kind (ns_of x) (name_of x) (ready x) (desired x)))
        once

module _ {F : Type 0} ⦃fl : Float F⦄ where
  -- If no cache holds two objects of the same namespace and name, no pod two containers of the same
  -- name, and the snapshot one cluster and each namespace once, no two samples of a scrape have the
  -- same name and the same labels: the registry does not reject it.
  pub collect-SeriesOnce :
      (now : Time) (c : Collector F) → IsNamed c → SeriesOnce (collect_metrics now c)
  unfolding collect_metrics metric_loops flatten loop_number kind_number deployment_samples
      stateful_set_samples daemon_set_samples volume_samples claim_samples service_samples
  collect-SeriesOnce now c named =
      let first = gauge collector_synced (flag c.synced) [] in
      flatten-SeriesOnce loop_number 0 ((first ∷ []) ∷ metric_loops now c) (
        ((tt & tt) & refl & tt)
        & looped 1 _ (first_labels 1) node_samples (node_list c) (node_samples-key F)
            (node_samples-number F) (All-each_one _ (node_list c) (node_samples-once F)) named.nodes
        & looped 2 _ (first_labels 2) (pod_samples c) c.caches.pods (pod_samples-key F c)
            (pod_samples-number F c) (pods c.caches.pods named.containers) named.pods
        & workloads_looped F "Deployment" (λ d. d.namespace) (λ d. d.name) (λ d. d.ready_replicas)
            (λ d. desired_replicas d.replicas) c.caches.deployments named.deployments
        & workloads_looped F "StatefulSet" (λ s. s.namespace) (λ s. s.name) (λ s. s.ready_replicas)
            (λ s. desired_replicas s.replicas) c.caches.stateful_sets named.stateful_sets
        & workloads_looped F "DaemonSet" (λ s. s.namespace) (λ s. s.name) (λ s. s.number_ready)
            (λ s. s.desired_number_scheduled) c.caches.daemon_sets named.daemon_sets
        & looped 6 _ (first_labels 1) volume_samples (volume_list c) (volume_samples-key F)
            (λ v. refl & tt) (All-each_one _ (volume_list c) (λ v. tt & tt)) named.volumes
        & looped 7 _ (first_labels 2) (claim_samples now) c.caches.claims (claim_samples-key F now)
            (λ p. refl & refl & tt) (All-each_one _ c.caches.claims (claim_samples-once F now))
            named.claims
        & looped 8 _ (first_labels 2) (service_samples c) c.caches.services
            (service_samples-key F c) (λ s. refl & tt)
            (All-each_one _ c.caches.services (λ s. tt & tt)) named.services
        & looped 9 rollup_key rollup_labels rollup_samples (snapshot c.stream).nodes
            (rollup_samples-key F) (rollup_samples-number F)
            (All-each_one _ (snapshot c.stream).nodes (rollup_samples-once F)) named.rollups
        & tt)
    where
      pods :
          (ps : List KubePod)
          → All (λ p. KeysOnce (λ cs. cs.name ∷ []) p.container_statuses) ps
          → All (λ p. SeriesOnce (pod_samples c p)) ps
      pods [] h = tt
      pods (p ∷ ps) h = (pod_samples-once F c p h.0, pods ps h.1)
