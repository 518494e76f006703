-- ===== src/Tests/Scores.antt =====
-- Verdicts of internal/health at concrete objects.
use mathlib.Core.List.Perm
use pulsebox.Base.{
  ℕ, zero, suc, ◌≤◌, true, false, List, [], ◌∷◌, none, some, ◌≡◌, refl, arith, All, length, keep_if,
  trim_space,
}
use pulsebox.Base.Int.{pos, ◌+ℤ◌}
use pulsebox.Base.Float.{InUnit}
use pulsebox.Base.Fixed.{fixed, fixed-FloatLaws}
use pulsebox.K8s.{KubeNode, ContainerStatus, KubePod}
use pulsebox.Health.{healthy, degraded, unhealthy, unknown, Result, IsSound}
use pulsebox.Health.Nodes.{node}
use pulsebox.Health.Nodes.Spec.{node-eq-spec, node-IsSound}
use pulsebox.Health.Pods.{pod, waits_down}
use pulsebox.Health.Pods.Verdicts.{pod-state, pod-down, pod-IsSound}
use pulsebox.Health.Workloads.{workload}
use pulsebox.Health.Workloads.Verdicts.{workload-state, workload-IsSound}
use pulsebox.Health.Storage.{pvc}
use pulsebox.Health.Storage.Verdicts.{pvc-state}
use pulsebox.Health.Reasons.{normalize_reasons, top_reasons}
use pulsebox.Health.Reasons.Normalized.{normalize_reasons-eq}
use pulsebox.Health.Reasons.Order.{top_reasons-eq_of_perm, length-top_reasons-le}
use pulsebox.Health.Rollup.{aggregate}
use pulsebox.Health.Rollup.Verdict.{aggregate-state, aggregate-known}
use pulsebox.Health.Rollup.Mean.{aggregate-InUnit, aggregate-healthy_of_share}

abbrev cordoned_node : KubeNode
cordoned_node = record {
  name = "worker-1";
  labels = [];
  unschedulable = true;
  taints = [];
  kubelet_version = "v1.29.0";
  conditions =
      (record { ctype = "DiskPressure"; status = "True" })
      ∷ (record { ctype = "Ready"; status = "True" })
      ∷ [];
  capacity = [];
}

node-eq-spec_example : node {F = ℕ} cordoned_node ≡ record {
  state = degraded;
  score = 500;
  reasons = "DiskPressure" ∷ "cordoned (SchedulingDisabled)" ∷ [];
}
node-eq-spec_example = node-eq-spec cordoned_node

node-IsSound_test : IsSound fixed (node cordoned_node)
node-IsSound_test = node-IsSound fixed-FloatLaws cordoned_node

abbrev ready_container : ContainerStatus
ready_container = record {
  name = "app";
  ready = true;
  waiting = none;
  terminated = none;
  restart_count = pos 3;
}

abbrev crashing_container : ContainerStatus
crashing_container = record {
  name = "sidecar";
  ready = false;
  waiting = some "CrashLoopBackOff";
  terminated = none;
  restart_count = pos 9;
}

abbrev stopped_container : ContainerStatus
stopped_container = record {
  name = "job";
  ready = false;
  waiting = none;
  terminated = some (record { exit_code = pos 1; reason = "Error" });
  restart_count = pos 0;
}

abbrev pod_of : List ContainerStatus → KubePod
pod_of statuses = record {
  namespace = "shop";
  name = "cart-0";
  owners = [];
  phase = "Running";
  reason = "";
  container_statuses = statuses;
  node_name = "worker-1";
  images = [];
  claims = [];
}

abbrev half_ready : KubePod
half_ready = pod_of (ready_container ∷ stopped_container ∷ [])

abbrev crashing : KubePod
crashing = pod_of (ready_container ∷ crashing_container ∷ [])

pod-state_example : (pod {F = ℕ} half_ready 0).state ≡ degraded
pod-state_example = pod-state half_ready 0

pod-down_test :
    pod {F = ℕ} crashing 300
    ≡ record { state = unhealthy; score = 0; reasons = "sidecar: CrashLoopBackOff" ∷ [] }
unfolding waits_down
pod-down_test = pod-down crashing 300 "sidecar: CrashLoopBackOff" refl refl refl

pod-IsSound_test : IsSound fixed (pod half_ready 250)
pod-IsSound_test = pod-IsSound fixed-FloatLaws half_ready 250

workload-state_example : (workload {F = ℕ} "Deployment" (pos 3) (pos 3) (pos 2)).state ≡ degraded
workload-state_example = workload-state ℕ "Deployment" 3 3 2

workload-IsSound_test : IsSound fixed (workload "Deployment" (pos 3) (pos 3) (pos 2))
workload-IsSound_test = workload-IsSound fixed-FloatLaws "Deployment" 3 3 2

-- Two minutes old, with a grace of one.
pvc-state_example :
    (pvc {F = ℕ} "Pending" (pos 1000) (pos 1000 +ℤ pos 120000000000) (pos 60000000000)).state
    ≡ unhealthy
pvc-state_example = pvc-state ℕ "Pending" (pos 1000) 120000000000 60000000000 (omega arith)

normalize_reasons-eq_example : normalize_reasons (" b" ∷ "a" ∷ "  " ∷ "b " ∷ []) ≡ "b" ∷ "a" ∷ []
unfolding keep_if trim_space
normalize_reasons-eq_example = normalize_reasons-eq (" b" ∷ "a" ∷ "  " ∷ "b " ∷ [])

top_reasons-eq_of_perm_example :
    top_reasons (("a", 1) ∷ ("b", 2) ∷ []) 5 ≡ top_reasons (("b", 2) ∷ ("a", 1) ∷ []) 5
top_reasons-eq_of_perm_example = top_reasons-eq_of_perm 5 (Perm.swap ("b", 2) ("a", 1) [])

length-top_reasons-le_example : length (top_reasons (("a", 1) ∷ ("b", 2) ∷ []) 1) ≤ 1
length-top_reasons-le_example = length-top_reasons-le (("a", 1) ∷ ("b", 2) ∷ []) 1

abbrev good : Result ℕ
good = record { state = healthy; score = 1000; reasons = [] }

abbrev bad : Result ℕ
bad = record { state = unhealthy; score = 0; reasons = "0 ready endpoints" ∷ [] }

abbrev unclear : Result ℕ
unclear = record { state = unknown; score = 500; reasons = "no selector (headless/external)" ∷ [] }

aggregate-state_example : (aggregate (good ∷ unclear ∷ bad ∷ [])).state ≡ unhealthy
unfolding aggregate
aggregate-state_example = aggregate-state (good ∷ unclear ∷ bad ∷ [])

aggregate-known_test : aggregate (good ∷ bad ∷ []) ≡ aggregate (good ∷ unclear ∷ bad ∷ [])
unfolding keep_if
aggregate-known_test = aggregate-known (good ∷ unclear ∷ bad ∷ [])

aggregate-InUnit_test : InUnit (aggregate (good ∷ unclear ∷ bad ∷ [])).score
aggregate-InUnit_test =
    aggregate-InUnit fixed-FloatLaws (good ∷ unclear ∷ bad ∷ [])
      ((refl, refl), ((refl, refl), ((refl, refl), tt))) (omega arith)

good-IsSound : IsSound fixed good
good-IsSound = record { in_unit = (refl, refl); fits = refl }

bad-IsSound : IsSound fixed bad
bad-IsSound = record { in_unit = (refl, refl); fits = refl }

abbrev goods : ℕ → List (Result ℕ)
goods zero = bad ∷ []
goods (suc n) = good ∷ goods n

goods-IsSound : (n : ℕ) → All (IsSound fixed) (goods n)
goods-IsSound zero = (bad-IsSound, tt)
goods-IsSound (suc n) = (good-IsSound, goods-IsSound n)

-- 99 healthy children and an unhealthy one.
aggregate-healthy_of_share_example : (aggregate (goods 99)).state ≡ healthy
aggregate-healthy_of_share_example =
    aggregate-healthy_of_share fixed-FloatLaws (goods 99) (goods-IsSound 99) (omega arith)
      (omega arith) (omega arith)
