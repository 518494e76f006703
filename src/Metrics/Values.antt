-- ===== src/Metrics/Values.antt =====
-- metrics.go: the gauges of nodes and of roll-ups against the verdicts of internal/health.
use pulsebox.Base.{
  ◌≤◌, ℕ, nat_beq, ◌⊎◌, Option-cases, eq_other, String, Bool, true, false, List, [], ◌∷◌, ◌≡◌, refl,
  arith, ap, ◌==◌, string_eq, eq_iff, All, Bool-cases, inl, inr,
}
use pulsebox.Base.Int.{Time}
use pulsebox.Base.Dict.{Dict, put, lookup, lookup-put}
use pulsebox.Base.Float.{Float, FloatLaws, InUnit}
use pulsebox.K8s.{NodeCondition, KubeNode}
use pulsebox.Health.Workloads.{desired_replicas}
use pulsebox.Health.{State, healthy, degraded, unhealthy, unknown}
use pulsebox.Health.Nodes.{node}
use pulsebox.Health.Nodes.Spec.{last_ready, status_or, node-eq-spec}
use pulsebox.Topology.{Node, text_at}
use pulsebox.Collector.Scope.Kept.{In}
use pulsebox.Collector.Stream.{snapshot}
use pulsebox.Collector.Build.Bounds.{CountsFit, objects, build_graph-InUnit}
use pulsebox.Collector.Access.{Collector, node_list, volume_list, refresh}
use pulsebox.Metrics.Descs.{node_ready, namespace_score, cluster_score}
use pulsebox.Metrics.{
  Sample, pod_samples, deployment_samples, stateful_set_samples, daemon_set_samples, volume_samples,
  claim_samples, service_samples, gauge, conditions_map, flag, node_samples, rollup_samples, each,
  metric_loops, collect_metrics,
}
use pulsebox.Metrics.Agreement.{In-each, In-flatten, snapshot-refresh}
use pulsebox.Metrics.Labels.{All-append, All-each, All-flatten, ◌&◌}
use pulsebox.Metrics.Keys.{kind_number, loop_number}
use pulsebox.Metrics.Items.{node_samples-number, pod_samples-number, workload_samples-number}
use pulsebox.Collector.Scope.Kept.{All-In}

conditions_map-ready :
    (cs : List NodeCondition) (m : Dict String String)
    → text_at "Ready" (conditions_map cs m) ≡ status_or (text_at "Ready" m) (last_ready cs)
unfolding conditions_map
conditions_map-ready [] m = refl
conditions_map-ready (c ∷ cs) m =
    ground (
      arith,
      conditions_map-ready cs (put c.ctype c.status m),
      lookup-put c.ctype "Ready" c.status m,
    )

-- A node that counts as up.
abbrev pub is_up : State → Bool
is_up healthy = true
is_up degraded = true
is_up unhealthy = false
is_up unknown = false

ready-is_up :
    (F : Type 0) ⦃fl : Float F⦄ (n : KubeNode)
    → (text_at "Ready" (conditions_map n.conditions []) == "True") ≡ is_up (node {F = F} n).state
unfolding lookup
ready-is_up F n =
    rw (conditions_map-ready n.conditions [], node-eq-spec {F = F} n)
      (elim (Option-cases (last_ready n.conditions)) [
        | inl e ↦ rw e refl
        | inr (t, e) ↦
            rw e (
              ground (arith, eq_iff t "Unknown", eq_iff t "True", eq_other t "Unknown" "True" refl))
      ])

In-node_samples :
    (F : Type 0) ⦃fl : Float F⦄ (n : KubeNode)
    → In
        (gauge {F = F} node_ready (flag (is_up (node {F = F} n).state)) (n.name ∷ []))
        (node_samples n)
unfolding node_samples
In-node_samples F n = inl (ap (λ b. gauge node_ready (flag b) (n.name ∷ [])) (ready-is_up F n))

-- A sample that is the score of a node of the graph, a namespace under its name or the cluster.
abbrev pub IsScoreOf : {F : Type 0} → Sample F → Node F → Type 0
IsScoreOf s n =
    (s.value ≡ n.score)
    × (((n.kind ≡ "Namespace") × (s.desc ≡ namespace_score) × (s.labels ≡ n.name ∷ []))
        ⊎ ((n.kind ≡ "Cluster") × (s.desc ≡ cluster_score) × (s.labels ≡ [])))

abbrev ScoreOf : {F : Type 0} → List (Node F) → Sample F → Type 0
ScoreOf nodes s = (n : Node _) × In n nodes × IsScoreOf s n

-- A sample of the last loop is a score.
abbrev IsScore : {F : Type 0} → List (Node F) → Sample F → Type 0
IsScore nodes s = loop_number s.desc.name s.labels ≡ 9 → ScoreOf nodes s

module _ {F : Type 0} ⦃fl : Float F⦄ where
  -- For each node that is listed a scrape has the ready gauge, which is 1 if `Node` finds it healthy
  -- or degraded, and 0 if it finds it unhealthy or unknown.
  pub ready-agrees :
      (now : Time) (c : Collector F) (n : KubeNode)
      → In n (node_list c)
      → In
          (gauge node_ready (flag (is_up (node {F = F} n).state)) (n.name ∷ []))
          (collect_metrics now c)
  unfolding collect_metrics metric_loops
  ready-agrees now c n i =
      let s = gauge node_ready (flag (is_up (node {F = F} n).state)) (n.name ∷ []) in
      inr (
        In-flatten s (each node_samples (node_list c)) (metric_loops now c) (inl refl)
          (In-each node_samples n (node_list c) s i (In-node_samples F n)))

  rollup_samples-IsScore :
      (nodes : List (Node F)) (n : Node F) → In n nodes → All (IsScore nodes) (rollup_samples n)
  unfolding rollup_samples
  rollup_samples-IsScore nodes n i = elim (Bool-cases (n.kind == "Namespace")) [
    | inl e ↦
        rw (e, rollup_samples)
          (λ h. (n, i, (refl, inl ((eq_iff n.kind "Namespace").0 e, refl, refl))), tt)
    | inr e ↦ elim (Bool-cases (n.kind == "Cluster")) [
      | inl f ↦
          rw (e, f, rollup_samples)
            (λ h. (n, i, (refl, inr ((eq_iff n.kind "Cluster").0 f, refl, refl))), tt)
      | inr f ↦ rw (e, f, rollup_samples) tt
    ]
  ]

  rollups-IsScore :
      (nodes ns : List (Node F))
      → ((n : Node F) → In n ns → In n nodes)
      → All (IsScore nodes) (each rollup_samples ns)
  unfolding each
  rollups-IsScore nodes [] within = tt
  rollups-IsScore nodes (n ∷ ns) within =
      All-append (IsScore nodes) (rollup_samples n) _
        (rollup_samples-IsScore nodes n (within n (inl refl)))
        (rollups-IsScore nodes ns (λ m i. within m (inr i)))

  -- A loop that sends no roll-up.
  others-IsScore :
      (nodes : List (Node F)) {A : Type 0} (k : ℕ) (samples : A → List (Sample F)) (xs : List A)
      → nat_beq k 9 ≡ false
      → ((x : A) → All (λ s. loop_number s.desc.name s.labels ≡ k) (samples x))
      → All (IsScore nodes) (each samples xs)
  others-IsScore nodes k samples xs h numbers =
      other k _ h (All-each (λ s. loop_number s.desc.name s.labels ≡ k) samples xs numbers)
    where
      other :
          (k : ℕ) (ss : List (Sample F))
          → nat_beq k 9 ≡ false
          → All (λ s. loop_number s.desc.name s.labels ≡ k) ss
          → All (IsScore nodes) ss
      other k [] h p = tt
      other k (s ∷ ss) h p = (λ e. absurd (ground (arith, e, p.0, h)), other k ss h p.1)

  collect-IsScore :
      (now : Time) (c : Collector F)
      → All (IsScore (snapshot c.stream).nodes) (collect_metrics now c)
  unfolding collect_metrics metric_loops loop_number kind_number deployment_samples
      stateful_set_samples daemon_set_samples volume_samples claim_samples service_samples
  collect-IsScore now c =
      let nodes = (snapshot c.stream).nodes in
      (
        λ e. absurd (ground (arith, e)),
        All-flatten (IsScore nodes) (metric_loops now c) (
            others-IsScore nodes 1 node_samples (node_list c) refl (node_samples-number F)
            & others-IsScore nodes 2 (pod_samples c) c.caches.pods refl (pod_samples-number F c)
            & others-IsScore nodes 3 deployment_samples c.caches.deployments refl (λ d.
              workload_samples-number F "Deployment" d.namespace d.name d.ready_replicas
                (desired_replicas d.replicas))
            & others-IsScore nodes 4 stateful_set_samples c.caches.stateful_sets refl (λ s.
              workload_samples-number F "StatefulSet" s.namespace s.name s.ready_replicas
                (desired_replicas s.replicas))
            & others-IsScore nodes 5 daemon_set_samples c.caches.daemon_sets refl (λ s.
              workload_samples-number F "DaemonSet" s.namespace s.name s.number_ready
                s.desired_number_scheduled)
            & others-IsScore nodes 6 volume_samples (volume_list c) refl (λ v. refl & tt)
            & others-IsScore nodes 7 (claim_samples now) c.caches.claims refl
                (λ p. refl & refl & tt)
            & others-IsScore nodes 8 (service_samples c) c.caches.services refl (λ s. refl & tt)
            & rollups-IsScore nodes nodes (λ n i. i)
            & tt),
      )

  score-number :
      (s : Sample F)
      → (s.desc.name ≡ "pulsebox_namespace_health_score")
        ⊎ (s.desc.name ≡ "pulsebox_cluster_health_score")
      → loop_number s.desc.name s.labels ≡ 9
  unfolding loop_number
  score-number s (inl e) = rw e refl
  score-number s (inr e) = rw e refl

  -- In a scrape after a rebuild, every sample of the health score of a namespace or of the cluster is
  -- the score of such a node of the graph, under its name, and from 0 to 1, if no workload has a
  -- negative count and the caches hold at most 2^53 objects, as `objects` counts them.
  pub scores-InUnit :
      FloatLaws fl
      → (built now : Time) (c : Collector F) (s : Sample F) → CountsFit c.caches
      → objects c.caches ≤ 9007199254740992
      → In s (collect_metrics now (refresh built c))
      → (s.desc.name ≡ "pulsebox_namespace_health_score")
        ⊎ (s.desc.name ≡ "pulsebox_cluster_health_score")
      → (n : Node F) × In n (snapshot (refresh built c).stream).nodes
        × IsScoreOf s n
        × InUnit s.value
  scores-InUnit laws built now c s counts small i named =
      let nodes = (snapshot (refresh built c).stream).nodes in
      let units : All (λ n. InUnit n.score) nodes =
        rw (snapshot-refresh built c)
          (build_graph-InUnit laws c.cfg c.caches built c.restarts counts small) in
      let (n, here, scores) =
        All-In (IsScore nodes) s _ (collect-IsScore now (refresh built c)) i
          (score-number s named) in
      (n, here, scores, rw (scores.0) (All-In (λ m. InUnit m.score) n nodes units here))
