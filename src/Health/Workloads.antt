-- ===== src/Health/Workloads.antt =====
-- health.go: `Workload` and its adapters, and `Service`.
pub mod Verdicts
use pulsebox.Base.{
  ℕ, String, Bool, true, false, not, List, [], ◌∷◌, Option, none, some, if◌then◌else◌, nat_beq,
  concat, show_int,
}
use pulsebox.Base.Int.{ℤ, pos, ltb_ℤ, leb_ℤ, eqb_ℤ}
use pulsebox.Base.Float.{Float, lit}
use pulsebox.K8s.{KubeDeployment, KubeStatefulSet, KubeDaemonSet}
use pulsebox.Health.{healthy, degraded, unhealthy, unknown, Result, state_score, result}

-- `*d.Spec.Replicas`, or 1 where it is nil.
abbrev pub desired_replicas : Option ℤ → ℤ
desired_replicas none = pos 1
desired_replicas (some n) = n

module _ {F : Type 0} ⦃fl : Float F⦄ where
  -- `kind` is not read.
  unfoldable pub workload : String → ℤ → ℤ → ℤ → Result F
  unfolding result
  workload kind desired ready available =
      if eqb_ℤ desired (pos 0)
      then record { state = healthy; score = lit 100; reasons = "scaled to 0 (desired)" ∷ [] }
      else let eff = if ltb_ℤ available ready then available else ready in
        let reason = concat (show_int eff ∷ "/" ∷ show_int desired ∷ " ready" ∷ []) in
        if leb_ℤ desired eff
        then result healthy []
        else if eqb_ℤ eff (pos 0)
        then record {
          state = unhealthy;
          score = lit 0;
          reasons = concat (reason ∷ " (none available)" ∷ []) ∷ [];
        }
        else record {
          state = degraded;
          score = fl.div (fl.of_int eff) (fl.of_int desired);
          reasons = reason ∷ [];
        }

  unfoldable pub deployment : KubeDeployment → Result F
  unfolding workload
  deployment d =
      workload "Deployment" (desired_replicas d.replicas) d.ready_replicas d.available_replicas

  unfoldable pub stateful_set : KubeStatefulSet → Result F
  unfolding workload
  stateful_set s =
      workload "StatefulSet" (desired_replicas s.replicas) s.ready_replicas s.current_replicas

  unfoldable pub daemon_set : KubeDaemonSet → Result F
  unfolding workload
  daemon_set d = workload "DaemonSet" d.desired_number_scheduled d.number_ready d.number_available

  -- `readyEndpoints` is a length.
  unfoldable pub service : Bool → ℕ → Result F
  unfolding result
  service has_selector ready_endpoints =
      if not has_selector
      then record {
        state = unknown;
        score = state_score unknown;
        reasons = "no selector (headless/external)" ∷ [];
      }
      else if nat_beq ready_endpoints 0
      then record { state = unhealthy; score = lit 0; reasons = "0 ready endpoints" ∷ [] }
      else result healthy []
