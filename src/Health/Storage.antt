-- ===== src/Health/Storage.antt =====
-- health.go: `PV` and `PVC`.
pub mod Verdicts
use pulsebox.Base.{String, ◌||◌, [], ◌∷◌, ◌==◌, if◌then◌else◌, string_eq, concat}
use pulsebox.Base.Int.{Time, Duration, ltb_ℤ, sub_time}
use pulsebox.Base.Duration.{show_duration, round_duration}
use pulsebox.Base.Float.{Float, lit}
use pulsebox.Health.{healthy, degraded, unhealthy, unknown, Result, result}

module _ {F : Type 0} ⦃fl : Float F⦄ where
  unfoldable pub pv : String → Result F
  unfolding result
  pv phase =
      if phase == "Bound" || phase == "Available"
      then result healthy []
      else if phase == "Released"
      then record { state = degraded; score = lit 50; reasons = "Released (awaiting reclaim)" ∷ [] }
      else if phase == "Failed"
      then record { state = unhealthy; score = lit 0; reasons = "Failed" ∷ [] }
      else if phase == "Pending"
      then record { state = degraded; score = lit 40; reasons = "Pending" ∷ [] }
      else result unknown []

  unfoldable pub pvc : String → Time → Time → Duration → Result F
  unfolding result
  pvc phase created_at now pending_grace =
      if phase == "Bound"
      then result healthy []
      else if phase == "Lost"
      then record { state = unhealthy; score = lit 0; reasons = "Lost (bound PV gone)" ∷ [] }
      else if phase == "Pending"
      then (let age = sub_time now created_at in
          if ltb_ℤ pending_grace age
          then record {
            state = unhealthy;
            score = lit 0;
            reasons =
                concat (
                  "Pending for "
                  ∷ show_duration (round_duration age 1000000000)
                  ∷ " (> "
                  ∷ show_duration pending_grace
                  ∷ " grace)"
                  ∷ [])
                ∷ [];
          }
          else record { state = degraded; score = lit 50; reasons = "Pending (within grace)" ∷ [] })
      else result unknown []
