-- ===== src/Tests/Scrapes.antt =====
-- Scrapes of a collector with one node and one pod.
use pulsebox.Base.{less_text, ℕ, [], ◌∷◌, ◌≡◌, refl, arith, All, inl, inr}
use pulsebox.Base.Int.{pos}
use pulsebox.Base.Float.{InUnit}
use pulsebox.Base.Fixed.{fixed, fixed-FloatLaws}
use pulsebox.Health.{State, state_text, pod_phase_value}
use pulsebox.Health.Pods.{pod}
use pulsebox.Health.Nodes.{node}
use pulsebox.Topology.{Node}
use pulsebox.Collector.Scope.Kept.{In}
use pulsebox.Collector.Stream.{snapshot}
use pulsebox.Collector.Build.{object_id}
use pulsebox.Collector.Access.{
  node_list, volume_list, new_collector, start_collector, refresh, restart_rate,
}
use pulsebox.Metrics.Descs.{pod_health, pod_restart_rate, node_ready, cluster_score}
use pulsebox.Metrics.{gauge, flag, collect_metrics}
use pulsebox.Metrics.Labels.{IsLabelled, collect-IsLabelled}
use pulsebox.Metrics.Series.{SeriesOnce}
use pulsebox.Metrics.Distinct.{collect-SeriesOnce}
use pulsebox.Metrics.Agreement.{pod-agrees}
use pulsebox.Metrics.Values.{IsScoreOf, is_up, ready-agrees, scores-InUnit}
use pulsebox.Collector.Build.Roots.{build_graph}
use pulsebox.Topology.{node_equal, edge_equal}
use pulsebox.Base.{trim_space, show_int}
use pulsebox.Health.Reasons.{top_reasons}
use pulsebox.Tests.Builds.{cart, worker}
use pulsebox.Tests.Answers.{started}

collect-IsLabelled_example : All IsLabelled (collect_metrics (pos 9) started)
collect-IsLabelled_example = collect-IsLabelled (pos 9) started

pod-agrees_example :
    (n : Node ℕ) × (st : State) × In n (snapshot (refresh (pos 8) started).stream).nodes
    × (n.id ≡ object_id "Pod" "shop" "cart-0")
    × (n.health ≡ state_text st)
    × (st ≡ (pod cart (restart_rate "shop" "cart-0" (refresh (pos 8) started))).state)
    × In
        (gauge pod_health (pod_phase_value st) ("shop" ∷ "cart-0" ∷ "worker-1" ∷ "Running" ∷ []))
        (collect_metrics (pos 9) (refresh (pos 8) started))
    × In
        (gauge pod_restart_rate
          (restart_rate "shop" "cart-0" (refresh (pos 8) started))
          ("shop" ∷ "cart-0" ∷ []))
        (collect_metrics (pos 9) (refresh (pos 8) started))
unfolding start_collector
pod-agrees_example = pod-agrees (pos 8) (pos 9) started cart (refl, tt) (inl refl)

ready-agrees_example :
    In
      (gauge node_ready (flag (is_up (node {F = ℕ} worker).state)) ("worker-1" ∷ []))
      (collect_metrics (pos 9) started)
unfolding new_collector start_collector node_list
ready-agrees_example = ready-agrees (pos 9) started worker (inl refl)

-- The twelfth sample is the cluster's score.
scores-InUnit_example :
    (n : Node ℕ) × In n (snapshot (refresh (pos 8) started).stream).nodes
    × IsScoreOf (gauge cluster_score 1000 []) n
    × InUnit (gauge {F = ℕ} cluster_score 1000 []).value
unfolding collect_metrics refresh build_graph less_text start_collector new_collector node_list
    volume_list snapshot node_equal top_reasons trim_space show_int edge_equal
scores-InUnit_example =
    scores-InUnit fixed-FloatLaws (pos 8) (pos 9) started (gauge cluster_score 1000 [])
      (record {
        deployments = tt;
        stateful_sets = ((omega arith, omega arith, omega arith), tt);
        daemon_sets = tt;
      })
      (omega arith) (inr (inr (inr (inr (inr (inr (inr (inr (inr (inr (inr (inl refl))))))))))))
      (inr refl)

-- The worker reports nothing: its gauge is 0.
ready_test : flag {F = ℕ} (is_up (node {F = ℕ} worker).state) ≡ 0
unfolding node flag
ready_test = refl

collect-SeriesOnce_example : SeriesOnce (collect_metrics (pos 9) started)
unfolding new_collector start_collector node_list volume_list snapshot less_text
collect-SeriesOnce_example = collect-SeriesOnce (pos 9) started (record {
  nodes = (tt, tt);
  pods = (tt, tt);
  containers = ((tt, tt), tt);
  deployments = tt;
  stateful_sets = (tt, tt);
  daemon_sets = tt;
  volumes = tt;
  claims = tt;
  services = tt;
  rollups = ground arith;
})
