-- ===== src/Health/Rollup/Verdict.antt =====
-- health.go: the state of `Aggregate`, and the children that it leaves out.
use pulsebox.Base.{
  ℕ, suc, ◌+◌, Bool, false, ◌||◌, not, List, [], ◌∷◌, ◌≡◌, refl, arith, if◌then◌else◌, nat_beq, any,
  keep_if,
}
use pulsebox.Base.Float.{Float, lit, at_least}
use pulsebox.Health.{State, healthy, degraded, unhealthy, unknown, Result, state_rank, same_state}
use pulsebox.Health.Rollup.{Tally, tally_child, tally, no_tally, aggregate}

module _ {F : Type 0} where
  abbrev pub is_known : Result F → Bool
  is_known c = not (same_state c.state unknown)

  abbrev pub is_state : State → Result F → Bool
  is_state s c = same_state c.state s

  abbrev pub known : List (Result F) → ℕ
  known [] = 0
  known (c ∷ cs) = if is_known c then suc (known cs) else known cs

  -- The worse of the states that the loop meets, from `s` on.
  abbrev worse_of : State → List (Result F) → State
  worse_of s cs =
      if same_state s unhealthy || any (is_state unhealthy) cs
      then unhealthy
      else if same_state s degraded || any (is_state degraded) cs
      then degraded
      else healthy

-- The loop's rank is that of its state, which is never unknown.
abbrev pub RankFits : {F : Type 0} → Tally F → Type 0
RankFits t = (t.worst_rank ≡ state_rank t.worst) × (same_state t.worst unknown ≡ false)

module _ {F : Type 0} ⦃fl : Float F⦄ where
  tally_child-RankFits : (c : Result F) (t : Tally F) → RankFits t → RankFits (tally_child c t)
  unfolding tally_child state_rank
  tally_child-RankFits c t h = ground arith

  tally-worst :
      (cs : List (Result F)) (t : Tally F) → RankFits t → (tally cs t).worst ≡ worse_of t.worst cs
  unfolding tally state_rank
  tally-worst [] t h = ground arith
  tally-worst (c ∷ cs) t h =
      ground (arith, tally-worst cs (tally_child c t) (tally_child-RankFits c t h))

  pub tally-n : (cs : List (Result F)) (t : Tally F) → (tally cs t).n ≡ t.n + known cs
  unfolding tally
  tally-n [] t = omega arith
  tally-n (c ∷ cs) t = ground (arith, tally-n cs (tally_child c t))

  pub known-pos : (cs : List (Result F)) → nat_beq (known cs) 0 ≡ not (any is_known cs)
  known-pos [] = refl
  known-pos (c ∷ cs) = ground (arith, known-pos cs)

  pub aggregate-state :
      (cs : List (Result F))
      → (aggregate cs).state ≡ (
          if not (any is_known cs)
          then unknown
          else if at_least (aggregate cs).score (lit 99)
          then healthy
          else if any (is_state unhealthy) cs
          then unhealthy
          else degraded)
  unfolding aggregate
  aggregate-state cs = ground (
    arith,
    tally-n cs no_tally,
    known-pos cs,
    tally-worst cs no_tally (unfold state_rank in (refl, refl)),
  )

  tally-known : (cs : List (Result F)) (t : Tally F) → tally (keep_if is_known cs) t ≡ tally cs t
  unfolding tally keep_if
  tally-known [] t = refl
  tally-known (c ∷ cs) t = ground (arith, tally-known cs t, tally-known cs (tally_child c t))

  -- Children of unknown state change neither the state nor the score nor the reasons of a roll-up.
  pub aggregate-known : (cs : List (Result F)) → aggregate (keep_if is_known cs) ≡ aggregate cs
  unfolding aggregate
  aggregate-known cs = rw (tally-known cs no_tally)
