-- ===== src/Metrics/Agreement.antt =====
-- metrics.go: the samples against the topology graph of the same rebuild.
use pulsebox.Base.{List, [], ◌∷◌, ◌≡◌, refl, subst, sym, string_eq, map, inl, inr}
use pulsebox.Base.Int.{Time}
use pulsebox.Base.{arith}
use pulsebox.Base.Float.{Float}
use pulsebox.K8s.{KubePod}
use pulsebox.Health.{State, state_text, pod_phase_value}
use pulsebox.Health.Pods.{pod}
use pulsebox.Topology.{Node}
use pulsebox.Collector.Scope.Kept.{In}
use pulsebox.Collector.Stream.{snapshot, rebuild}
use pulsebox.Collector.Build.{object_id, scored_node}
use pulsebox.Collector.Build.Pods.{pod_key}
use pulsebox.Collector.Build.Closed.{In-append, In-behind}
use pulsebox.Collector.Build.Kept.{Once}
use pulsebox.Collector.Build.Roots.{build_graph}
use pulsebox.Collector.Build.Rated.{build_graph-IsScored}
use pulsebox.Collector.Access.{Collector, refresh, restart_rate}
use pulsebox.Metrics.Descs.{pod_health, pod_restart_rate}
use pulsebox.Metrics.{
  Sample, gauge, pod_samples, rollup_samples, each, flatten, metric_loops, collect_metrics,
}

pub In-each :
    {A F : Type 0} (samples : A → List (Sample F)) (x : A) (xs : List A) (s : Sample F)
    → In x xs
    → In s (samples x)
    → In s (each samples xs)
unfolding each
In-each samples x [] s i k = elim i [ ]
In-each samples x (y ∷ xs) s (inl e) k =
    In-append s _ (each samples xs) (subst (λ z. In s (samples z)) (sym e) k)
In-each samples x (y ∷ xs) s (inr i) k = In-behind s (samples y) _ (In-each samples x xs s i k)

pub In-flatten :
    {A : Type 0} (x : A) (xs : List A) (lists : List (List A))
    → In xs lists
    → In x xs
    → In x (flatten lists)
unfolding flatten
In-flatten x xs [] i k = elim i [ ]
In-flatten x xs (ys ∷ lists) (inl e) k =
    In-append x ys (flatten lists) (subst (λ z. In x z) (sym e) k)
In-flatten x xs (ys ∷ lists) (inr i) k = In-behind x ys _ (In-flatten x xs lists i k)

module _ {F : Type 0} ⦃fl : Float F⦄ where
  In-collect-pods :
      (now : Time) (c : Collector F) (p : KubePod) (s : Sample F)
      → In p c.caches.pods
      → In s (pod_samples c p)
      → In s (collect_metrics now c)
  unfolding collect_metrics metric_loops
  In-collect-pods now c p s i k = inr (
      In-flatten s (each (pod_samples c) c.caches.pods) (metric_loops now c) (inr (inl refl))
        (In-each (pod_samples c) p c.caches.pods s i k))

  In-collect-nodes :
      (now : Time) (c : Collector F) (n : Node F) (s : Sample F)
      → In n (snapshot c.stream).nodes
      → In s (rollup_samples n)
      → In s (collect_metrics now c)
  unfolding collect_metrics metric_loops
  In-collect-nodes now c n s i k = inr (
      In-flatten s (each rollup_samples (snapshot c.stream).nodes) (metric_loops now c)
        (inr (inr (inr (inr (inr (inr (inr (inr (inl refl)))))))))
        (In-each rollup_samples n _ s i k))

  pub snapshot-refresh :
      (now : Time) (c : Collector F)
      → snapshot (refresh now c).stream ≡ (build_graph c.cfg c.caches now c.restarts).0
  unfolding refresh snapshot rebuild
  snapshot-refresh now c = ground arith

  -- Where no two pods have the same key: a scrape after a rebuild, with the caches as they were, has
  -- for each pod the health gauge at the value of a state, and the pod's node in the snapshot has
  -- the text of that state. The state is that of `Pod` at the restart rate that the scrape shows.
  pub pod-agrees :
      (built scraped : Time) (c : Collector F) (p : KubePod)
      → Once (map pod_key c.caches.pods)
      → In p c.caches.pods
      → (n : Node F) × (st : State) × In n (snapshot (refresh built c).stream).nodes
        × (n.id ≡ object_id "Pod" p.namespace p.name)
        × (n.health ≡ state_text st)
        × (st ≡ (pod p (restart_rate p.namespace p.name (refresh built c))).state)
        × In
            (gauge pod_health
              (pod_phase_value st)
              (p.namespace ∷ p.name ∷ p.node_name ∷ p.phase ∷ []))
            (collect_metrics scraped (refresh built c))
        × In
            (gauge pod_restart_rate
              (restart_rate p.namespace p.name (refresh built c))
              (p.namespace ∷ p.name ∷ []))
            (collect_metrics scraped (refresh built c))
  unfolding refresh pod_samples restart_rate pod_key scored_node
  pod-agrees built scraped c p o i =
      let rate = restart_rate p.namespace p.name (refresh built c) in
      let (meta, k) = build_graph-IsScored c.cfg c.caches built c.restarts p o i in
      (
        scored_node "Pod" p.namespace p.name (pod p rate) meta,
        (pod p rate).state,
        rw (snapshot-refresh built c) k,
        refl,
        refl,
        refl,
        In-collect-pods scraped (refresh built c) p _ i (inl refl),
        In-collect-pods scraped (refresh built c) p _ i (inr (inl refl)),
      )
