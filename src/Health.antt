-- ===== src/Health.antt =====
-- internal/health/health.go: states, results and their ranks. The scorers are in the child modules.
pub mod Nodes
pub mod Pods
pub mod Workloads
pub mod Storage
pub mod Reasons
pub mod Rollup
use pulsebox.Base.{ℕ, String, Bool, true, false, List, [], ◌≡◌, refl, arith, if◌then◌else◌, ◌≤◌}
use pulsebox.Base.Int.{ℤ, pos, negsuc, leb_ℤ}
use pulsebox.Base.Float.{Float, FloatLaws, lit, InUnit}

pub data State : Type 0 where
  healthy degraded unhealthy unknown : State

-- The text of a state: `string(s)`.
unfoldable pub state_text : State → String
state_text healthy = "healthy"
state_text degraded = "degraded"
state_text unhealthy = "unhealthy"
state_text unknown = "unknown"

pub record Result (F : Type 0) : Type 0 where
  pub state : State
  pub score : F
  pub reasons : List String

-- `s == t`
abbrev pub same_state : State → State → Bool
same_state healthy healthy = true
same_state degraded degraded = true
same_state unhealthy unhealthy = true
same_state unknown unknown = true
same_state _ _ = false

unfoldable pub state_rank : State → ℤ
state_rank healthy = pos 0
state_rank degraded = pos 1
state_rank unhealthy = pos 2
state_rank unknown = negsuc 0

unfoldable pub worst : State → State → State
unfolding state_rank
worst a b = if leb_ℤ (state_rank b) (state_rank a) then a else b

module _ {F : Type 0} ⦃fl : Float F⦄ where
  unfoldable pub state_score : State → F
  state_score healthy = lit 100
  state_score degraded = lit 50
  state_score unhealthy = lit 0
  state_score unknown = lit 50

  unfoldable pub result : State → List String → Result F
  unfolding state_score
  result s reasons = record { state = s; score = state_score s; reasons = reasons }

  unfoldable pub pod_phase_value : State → F
  pod_phase_value healthy = lit 100
  pod_phase_value unhealthy = lit 0
  pod_phase_value degraded = lit 200
  pod_phase_value unknown = lit 300

-- What every verdict promises: a score from 0 to 1, which is 1 when healthy and at most 0.2 when
-- unhealthy.
abbrev pub ScoreFits : {F : Type 0} → Float F → State → F → Type 0
ScoreFits fl healthy x = x ≡ fl.hundredths 100
ScoreFits fl degraded x = Unit
ScoreFits fl unhealthy x = fl.le x (fl.hundredths 20) ≡ true
ScoreFits fl unknown x = x ≡ fl.hundredths 50

pub record IsSound {F : Type 0} (fl : Float F) (r : Result F) : Type 0 where
  pub in_unit : InUnit ⦃fl = fl⦄ r.score
  pub fits : ScoreFits fl r.state r.score

-- A score of a literal of hundredths is sound if the literal is.
pub literal-InUnit :
    {F : Type 0} (fl : Float F)
    → FloatLaws fl
    → (n : ℕ) → n ≤ 100
    → InUnit ⦃fl = fl⦄ (fl.hundredths n)
literal-InUnit fl laws n h = ground (arith, laws.le-hundredths 0 n, laws.le-hundredths n 100)
