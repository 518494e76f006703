-- ===== src/Health/Storage/Verdicts.antt =====
-- The verdicts of `PV` and `PVC`.
use pulsebox.Base.{
  ℕ, String, ◌&&◌, ◌||◌, ◌≡◌, refl, arith, if◌then◌else◌, ltb, ◌≤◌, ◌==◌, string_eq, eq_other,
}
use pulsebox.Base.Int.{pos, Time, Duration, ◌+ℤ◌, ◌-ℤ◌, sub_time}
use pulsebox.Base.Float.{Float, FloatLaws}
use pulsebox.Health.{healthy, degraded, unhealthy, unknown, state_score, IsSound, literal-InUnit}
use pulsebox.Health.Storage.{pv, pvc}

sub_time-add :
    (t : Time) (age : ℕ) → age ≤ 9223372036854775807 → sub_time (t +ℤ pos age) t ≡ pos age
unfolding sub_time ◌+ℤ◌ ◌-ℤ◌
sub_time-add t age h = ground arith

module _ (F : Type 0) ⦃fl : Float F⦄ where
  -- A claim that is younger than 2^63 nanoseconds, with a grace that is not negative, is healthy when
  -- Bound, unhealthy when Lost or Pending for longer than the grace, degraded when Pending for no
  -- longer, and unknown in any other phase.
  pub pvc-state :
      (phase : String) (created : Time) (age grace : ℕ)
      → age ≤ 9223372036854775807
      → (pvc {F = F} phase created (created +ℤ pos age) (pos grace)).state ≡ (
          if phase == "Bound"
          then healthy
          else if phase == "Lost" || (phase == "Pending" && ltb grace age)
          then unhealthy
          else if phase == "Pending"
          then degraded
          else unknown)
  unfolding pvc
  pvc-state phase created age grace h =
      ground (arith, sub_time-add created age h, eq_other phase "Lost" "Pending" refl)

module _ {F : Type 0} ⦃fl : Float F⦄ where
  -- A claim's score is from 0 to 1, is 1 when it is healthy, at most 0.2 when it is unhealthy and 0.5
  -- when it is unknown.
  pub pvc-IsSound :
      FloatLaws fl
      → (phase : String) (created now : Time) (grace : Duration)
      → IsSound fl (pvc phase created now grace)
  unfolding pvc state_score
  pvc-IsSound laws phase created now grace = ground (
    arith,
    literal-InUnit fl laws 0,
    literal-InUnit fl laws 50,
    literal-InUnit fl laws 100,
    laws.le-hundredths 0 20,
  )

  pub pv-IsSound : FloatLaws fl → (phase : String) → IsSound fl (pv phase)
  unfolding pv state_score
  pv-IsSound laws phase = ground (
    arith,
    literal-InUnit fl laws 0,
    literal-InUnit fl laws 40,
    literal-InUnit fl laws 50,
    literal-InUnit fl laws 100,
    laws.le-hundredths 0 20,
  )
