-- ===== src/Health/Nodes.antt =====
-- health.go: `Node`.
pub mod Spec
use pulsebox.Base.{
  ℕ, suc, String, Bool, true, false, ◌&&◌, ◌||◌, not, List, [], ◌∷◌, ◌++◌, ◌≡◌, refl, arith, Option,
  none, some, ◌==◌, if◌then◌else◌, is_nil, length, ltb, any, or_else, eq_iff, string_eq,
  append_assoc, append-nil, eq_other,
}
use pulsebox.Base.Float.{Float, FloatLaws, lit}
use pulsebox.K8s.{NodeCondition, KubeNode}
use pulsebox.Health.{
  State, healthy, degraded, unhealthy, unknown, Result, state_score, result, IsSound,
  literal-InUnit,
}

-- The variables of the loop over the conditions.
pub record NodeScan : Type 0 where
  pub ready : Bool
  pub ready_status : String
  pub reasons : List String

is_pressure : String → Bool
is_pressure t = t == "MemoryPressure" || t == "DiskPressure" || t == "PIDPressure"

unfoldable pub scan_condition : NodeCondition → NodeScan → NodeScan
unfolding is_pressure
scan_condition c s =
    if c.ctype == "Ready"
    then record s { ready = c.status == "True"; ready_status = c.status }
    else if is_pressure c.ctype
    then (if c.status == "True" then record s { reasons = s.reasons ++ c.ctype ∷ [] } else s)
    else if c.ctype == "NetworkUnavailable"
    then (if c.status == "True"
        then record s { reasons = s.reasons ++ "NetworkUnavailable" ∷ [] }
        else s)
    else s

unfoldable pub scan_conditions : List NodeCondition → NodeScan → NodeScan
unfolding scan_condition
scan_conditions [] s = s
scan_conditions (c ∷ cs) s = scan_conditions cs (scan_condition c s)

module _ {F : Type 0} ⦃fl : Float F⦄ where
  ready_verdict : List String → Result F
  unfolding result
  ready_verdict reasons = if is_nil reasons then result healthy [] else record {
    state = degraded;
    score = if ltb 1 (length reasons) then lit 50 else lit 70;
    reasons = reasons;
  }

  unfoldable pub node : KubeNode → Result F
  unfolding scan_conditions ready_verdict result
  node n =
      let s =
        scan_conditions n.conditions
          (record { ready = false; ready_status = "Unknown"; reasons = [] }) in
      if s.ready_status == "Unknown"
      then record {
        state = unknown;
        score = state_score unknown;
        reasons = "NodeReady=Unknown (kubelet not reporting)" ∷ [];
      }
      else if not s.ready
      then record { state = unhealthy; score = lit 0; reasons = "NodeReady=False" ∷ s.reasons }
      else ready_verdict
          (if n.unschedulable then s.reasons ++ "cordoned (SchedulingDisabled)" ∷ [] else s.reasons)
