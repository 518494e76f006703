-- ===== src/Health/Workloads/Verdicts.antt =====
-- The verdicts of `Workload` and `Service`.
use pulsebox.Base.{
  ℕ, zero, suc, String, Bool, ◌&&◌, ◌||◌, ◌≡◌, arith, if◌then◌else◌, leb, nat_beq, ◌<◌,
}
use pulsebox.Base.Int.{pos}
use pulsebox.Base.Float.{Float, FloatLaws, lit, InUnit}
use pulsebox.Health.{healthy, degraded, unhealthy, state_score, IsSound, literal-InUnit}
use pulsebox.Health.Workloads.{workload, service}

module _ (F : Type 0) ⦃fl : Float F⦄ where
  -- For counts that are not negative, a workload is healthy if none is desired or both the ready and
  -- the available ones reach the desired number; else it is unhealthy if none is ready or none
  -- available, and degraded otherwise.
  pub workload-state :
      (kind : String) (desired ready available : ℕ)
      → (workload {F = F} kind (pos desired) (pos ready) (pos available)).state ≡ (
          if nat_beq desired 0 || (leb desired ready && leb desired available)
          then healthy
          else if nat_beq ready 0 || nat_beq available 0
          then unhealthy
          else degraded)
  unfolding workload
  workload-state kind desired ready available = ground arith

module _ {F : Type 0} ⦃fl : Float F⦄ where
  -- A share of a whole is from 0 to 1.
  share-InUnit :
      FloatLaws fl
      → (part whole : ℕ) → part < suc whole
      → InUnit (fl.div (fl.of_int (pos part)) (fl.of_int (pos (suc whole))))
  share-InUnit laws part whole h =
      let zero_le =
        laws.le_trans (lit 0) (fl.of_int (pos 0)) (fl.of_int (pos part)) laws.of_int_zero.0
          (laws.of_int_mono (pos 0) (pos part) (omega arith)) in
      let below = laws.of_int_mono (pos part) (pos (suc whole)) (omega arith) in
      (
        laws.div_nonneg (fl.of_int (pos part)) whole zero_le,
        laws.le_trans _ _ _ (laws.div_mono _ _ whole zero_le below) (laws.div_self whole).0,
      )

  -- For counts that are not negative, a workload's score is from 0 to 1, is 1 when it is healthy and at
  -- most 0.2 when it is unhealthy.
  pub workload-IsSound :
      FloatLaws fl
      → (kind : String) (desired ready available : ℕ)
      → IsSound fl (workload kind (pos desired) (pos ready) (pos available))
  unfolding workload state_score
  workload-IsSound laws kind zero ready available = ground (arith, literal-InUnit fl laws 100)
  workload-IsSound laws kind (suc desired) ready available = ground (
    arith,
    literal-InUnit fl laws 0,
    literal-InUnit fl laws 100,
    laws.le-hundredths 0 20,
    share-InUnit laws ready desired,
    share-InUnit laws available desired,
  )

  pub service-IsSound :
      FloatLaws fl → (has_selector : Bool) (ready : ℕ) → IsSound fl (service has_selector ready)
  unfolding service state_score
  service-IsSound laws has_selector ready = ground (
    arith,
    literal-InUnit fl laws 0,
    literal-InUnit fl laws 50,
    literal-InUnit fl laws 100,
    laws.le-hundredths 0 20,
  )
