-- ===== src/Collector/Build/Counts.antt =====
-- graph.go: the scores that the loops over the workloads add.
use native.Mathlib.Nat.{add-zero}
use pulsebox.Base.{ℕ, suc, ◌+◌, length, String, List, [], ◌∷◌, ◌≡◌, arith, string_eq, All}
use pulsebox.Base.Int.{ℤ, pos, negsuc, ◌≤ℤ◌}
use pulsebox.Base.Float.{Float, FloatLaws, InUnit}
use pulsebox.K8s.{KubeDeployment, KubeStatefulSet, KubeDaemonSet}
use pulsebox.Health.Workloads.{workload, deployment, stateful_set, daemon_set, desired_replicas}
use pulsebox.Health.Workloads.Verdicts.{workload-IsSound}
use pulsebox.Collector.Build.{Build}
use pulsebox.Collector.Build.Workloads.{build_deployments, build_stateful_sets, build_daemon_sets}
use pulsebox.Collector.Build.Scores.{ScoresFit, build_workload-ScoresFit}

pub add-suc-eq : (k n : ℕ) → k + suc n ≡ suc k + n
add-suc-eq k n = omega arith

-- A number that is not negative.
abbrev pub IsCount : ℤ → Type 0
IsCount z = pos 0 ≤ℤ z

abbrev pub DeploymentCounts : KubeDeployment → Type 0
DeploymentCounts d =
    IsCount (desired_replicas d.replicas) × IsCount d.ready_replicas × IsCount d.available_replicas

abbrev pub StatefulSetCounts : KubeStatefulSet → Type 0
StatefulSetCounts s =
    IsCount (desired_replicas s.replicas) × IsCount s.ready_replicas × IsCount s.current_replicas

abbrev pub DaemonSetCounts : KubeDaemonSet → Type 0
DaemonSetCounts d =
    IsCount d.desired_number_scheduled × IsCount d.number_ready × IsCount d.number_available

module _ {F : Type 0} ⦃fl : Float F⦄ (laws : FloatLaws fl) where
  workload-InUnit :
      (kind : String) (desired ready available : ℤ)
      → IsCount desired
      → IsCount ready
      → IsCount available
      → InUnit (workload {F = F} kind desired ready available).score
  workload-InUnit kind (pos d) (pos r) (pos a) p q s = (workload-IsSound laws kind d r a).in_unit
  workload-InUnit kind (negsuc d) r a p q s = absurd (omega (arith, p))
  workload-InUnit kind (pos d) (negsuc r) a p q s = absurd (omega (arith, q))
  workload-InUnit kind (pos d) (pos r) (negsuc a) p q s = absurd (omega (arith, s))

  deployment-InUnit :
      (d : KubeDeployment) → DeploymentCounts d → InUnit (deployment {F = F} d).score
  unfolding deployment
  deployment-InUnit d (p, q, r) = workload-InUnit "Deployment" _ _ _ p q r

  pub build_deployments-ScoresFit :
      (ds : List KubeDeployment) (k : ℕ) (b : Build F)
      → All DeploymentCounts ds
      → ScoresFit k b
      → ScoresFit (k + length ds) (build_deployments ds b)
  unfolding build_deployments
  build_deployments-ScoresFit [] k b h f = rw add-zero f
  build_deployments-ScoresFit (d ∷ rest) k b h f = rw (add-suc-eq k (length rest)) (
      build_deployments-ScoresFit rest (suc k) _ h.1
        (build_workload-ScoresFit "Deployment" _ _ _ _ _ k b (deployment-InUnit d h.0) f))

  stateful_set-InUnit :
      (s : KubeStatefulSet) → StatefulSetCounts s → InUnit (stateful_set {F = F} s).score
  unfolding stateful_set
  stateful_set-InUnit s (p, q, r) = workload-InUnit "StatefulSet" _ _ _ p q r

  pub build_stateful_sets-ScoresFit :
      (ss : List KubeStatefulSet) (k : ℕ) (b : Build F)
      → All StatefulSetCounts ss
      → ScoresFit k b
      → ScoresFit (k + length ss) (build_stateful_sets ss b)
  unfolding build_stateful_sets
  build_stateful_sets-ScoresFit [] k b h f = rw add-zero f
  build_stateful_sets-ScoresFit (s ∷ rest) k b h f = rw (add-suc-eq k (length rest)) (
      build_stateful_sets-ScoresFit rest (suc k) _ h.1
        (build_workload-ScoresFit "StatefulSet" _ _ _ _ _ k b (stateful_set-InUnit s h.0) f))

  daemon_set-InUnit : (d : KubeDaemonSet) → DaemonSetCounts d → InUnit (daemon_set {F = F} d).score
  unfolding daemon_set
  daemon_set-InUnit d (p, q, r) = workload-InUnit "DaemonSet" _ _ _ p q r

  pub build_daemon_sets-ScoresFit :
      (ds : List KubeDaemonSet) (k : ℕ) (b : Build F)
      → All DaemonSetCounts ds
      → ScoresFit k b
      → ScoresFit (k + length ds) (build_daemon_sets ds b)
  unfolding build_daemon_sets
  build_daemon_sets-ScoresFit [] k b h f = rw add-zero f
  build_daemon_sets-ScoresFit (d ∷ rest) k b h f = rw (add-suc-eq k (length rest)) (
      build_daemon_sets-ScoresFit rest (suc k) _ h.1
        (build_workload-ScoresFit "DaemonSet" _ _ _ _ _ k b (daemon_set-InUnit d h.0) f))
