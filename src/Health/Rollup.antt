-- ===== src/Health/Rollup.antt =====
-- health.go: `Aggregate`.
pub mod Verdict
pub mod Mean
use pulsebox.Base.{
  ℕ, suc, String, Bool, true, false, not, List, [], ◌∷◌, Option, none, some, if◌then◌else◌, nat_beq,
  string_eq,
}
use pulsebox.Base.Int.{ℤ, pos, ltb_ℤ}
use pulsebox.Base.Dict.{Dict, lookup, put}
use pulsebox.Base.Float.{Float, lit, at_least}
use pulsebox.Health.Reasons.{top_reasons}
use pulsebox.Health.{
  State, healthy, degraded, unhealthy, unknown, Result, result, state_rank, same_state,
}

-- The variables of the loop over the children.
pub record Tally (F : Type 0) : Type 0 where
  pub sum : F
  pub n : ℕ
  pub worst : State
  pub worst_rank : ℤ
  pub counts : Dict String ℕ

-- `reasons[reason]++`
count_reason : String → Dict String ℕ → Dict String ℕ
unfolding lookup put
count_reason r counts = elim (lookup r counts) [
  | none ↦ put r 1 counts
  | some k ↦ put r (suc k) counts
]

unfoldable pub count_reasons : List String → Dict String ℕ → Dict String ℕ
unfolding count_reason
count_reasons [] counts = counts
count_reasons (r ∷ rs) counts = count_reasons rs (count_reason r counts)

module _ {F : Type 0} ⦃fl : Float F⦄ where
  unfoldable pub tally_child : Result F → Tally F → Tally F
  unfolding state_rank
  tally_child c t =
      if same_state c.state unknown
      then t
      else let worse = ltb_ℤ t.worst_rank (state_rank c.state) in
        record {
          sum = fl.add t.sum c.score;
          n = suc t.n;
          worst = if worse then c.state else t.worst;
          worst_rank = if worse then state_rank c.state else t.worst_rank;
          counts =
              if not (same_state c.state healthy)
              then count_reasons c.reasons t.counts
              else t.counts;
        }

  unfoldable pub tally : List (Result F) → Tally F → Tally F
  unfolding tally_child
  tally [] t = t
  tally (c ∷ cs) t = tally cs (tally_child c t)

  abbrev pub no_tally : Tally F
  no_tally = record { sum = lit 0; n = 0; worst = healthy; worst_rank = pos 0; counts = [] }

  -- The state from the mean and the worst child.
  unfoldable pub rolled_state : State → F → State
  rolled_state worst mean =
      if at_least mean (lit 99)
      then healthy
      else if same_state worst healthy
      then degraded
      else worst

  unfoldable pub aggregate : List (Result F) → Result F
  unfolding tally rolled_state result
  aggregate children =
      let t = tally children no_tally in
      if nat_beq t.n 0
      then result unknown []
      else let mean = fl.div t.sum (fl.of_int (pos t.n)) in
        record { state = rolled_state t.worst mean; score = mean; reasons = top_reasons t.counts 5 }
