-- ===== src/Health/Rollup/Mean.antt =====
-- health.go: the mean score of `Aggregate`.
use native.Mathlib.Nat.{add-zero, zero-add}
use pulsebox.Base.{
  ℕ, zero, suc, ◌+◌, ◌≤◌, ◌<◌, ◌*◌, true, List, [], ◌∷◌, ◌≡◌, arith, if◌then◌else◌, nat_beq, All,
}
use pulsebox.Base.Int.{pos}
use pulsebox.Base.Float.{Float, FloatLaws, lit, at_least, InUnit}
use pulsebox.Health.{
  State, healthy, degraded, unhealthy, unknown, Result, state_score, same_state, literal-InUnit,
  IsSound, ScoreFits,
}
use pulsebox.Health.Rollup.{Tally, tally_child, tally, no_tally, aggregate}
use pulsebox.Health.Rollup.Verdict.{known, known-pos, tally-n, aggregate-state}

module _ {F : Type 0} where
  abbrev pub healthies : List (Result F) → ℕ
  healthies [] = 0
  healthies (c ∷ cs) = if same_state c.state healthy then suc (healthies cs) else healthies cs

module _ {F : Type 0} ⦃fl : Float F⦄ (laws : FloatLaws fl) where
  -- The sum of `n` scores is from 0 to n.
  abbrev SumFits : Tally F → Type 0
  SumFits t = (fl.le (lit 0) t.sum ≡ true) × (fl.le t.sum (fl.of_int (pos t.n)) ≡ true)

  add-SumFits :
      (x : F) (s : F) (n : ℕ)
      → n < 9007199254740992
      → InUnit x
      → fl.le (lit 0) s ≡ true
      → fl.le s (fl.of_int (pos n)) ≡ true
      → (fl.le (lit 0) (fl.add s x) ≡ true) × (fl.le (fl.add s x) (fl.of_int (pos (suc n))) ≡ true)
  add-SumFits x s n h u p q =
      let zero_le = laws.le-hundredths 0 0 (omega arith) (omega arith) in
      (
        laws.le_trans _ _ _ (laws.add_zero (lit 0) zero_le)
            (laws.add_mono (lit 0) s (lit 0) x zero_le p zero_le u.0),
        laws.le_trans _ _ _ (laws.add_mono s (fl.of_int (pos n)) x (lit 100) p q u.0 u.1)
            (laws.add_one n h).0,
      )

  tally-SumFits :
      (cs : List (Result F)) (t : Tally F)
      → All (λ c. InUnit c.score) cs
      → t.n + known cs ≤ 9007199254740992
      → SumFits t
      → SumFits (tally cs t)
  unfolding tally
  tally-SumFits [] t u h f = f
  tally-SumFits (c ∷ cs) t u h f =
      ground (arith, add-SumFits c.score t.sum t.n, tally-SumFits cs (tally_child c t) u.1)

  mean-InUnit :
      (s : F) (n : ℕ)
      → fl.le (lit 0) s ≡ true
      → fl.le s (fl.of_int (pos (suc n))) ≡ true
      → InUnit (fl.div s (fl.of_int (pos (suc n))))
  mean-InUnit s n p q = (
    laws.div_nonneg s n p,
    laws.le_trans _ _ _ (laws.div_mono s (fl.of_int (pos (suc n))) n p q) (laws.div_self n).0,
  )

  score-InUnit :
      (s : F) (n : ℕ)
      → fl.le (lit 0) s ≡ true
      → fl.le s (fl.of_int (pos n)) ≡ true
      → InUnit (if nat_beq n 0 then lit 50 else fl.div s (fl.of_int (pos n)))
  score-InUnit s zero p q = literal-InUnit fl laws 50 (omega arith)
  score-InUnit s (suc n) p q = ground (arith, mean-InUnit s n p q)

  score-aggregate :
      (cs : List (Result F))
      → (aggregate cs).score ≡ (
          let t = tally cs no_tally in
          if nat_beq t.n 0 then lit 50 else fl.div t.sum (fl.of_int (pos t.n)))
  unfolding aggregate state_score
  score-aggregate cs = ground arith

  -- Of at most 2^53 known children, if every child's score is from 0 to 1, so is the score of the
  -- roll-up.
  pub aggregate-InUnit :
      (cs : List (Result F))
      → All (λ c. InUnit c.score) cs
      → known cs ≤ 9007199254740992
      → InUnit (aggregate cs).score
  aggregate-InUnit cs u h =
      let start = laws.le-hundredths 0 0 (omega arith) (omega arith) in
      let f = tally-SumFits cs no_tally u (omega arith) (start, laws.of_int_zero.0) in
      rw (score-aggregate cs) (score-InUnit (tally cs no_tally).sum (tally cs no_tally).n f.0 f.1)

  add-full :
      (x s : F) (k : ℕ)
      → k < 9007199254740992
      → x ≡ lit 100
      → fl.le (lit 0) s ≡ true
      → fl.le (fl.of_int (pos k)) s ≡ true
      → fl.le (fl.of_int (pos (suc k))) (fl.add s x) ≡ true
  add-full x s k h e p q =
      let nonneg =
        laws.le_trans _ _ _ laws.of_int_zero.0 (laws.of_int_mono (pos 0) (pos k) (omega arith)) in
      let zero_le_one = literal-InUnit fl laws 100 (omega arith) in
      rw e (
        laws.le_trans _ _ _ (laws.add_one k h).1 (
          laws.add_mono (fl.of_int (pos k)) s (lit 100) (lit 100) nonneg q zero_le_one.0
            zero_le_one.1))

  add-keeps :
      (x s : F) (k : ℕ)
      → InUnit x
      → fl.le (lit 0) s ≡ true
      → fl.le (fl.of_int (pos k)) s ≡ true
      → fl.le (fl.of_int (pos k)) (fl.add s x) ≡ true
  add-keeps x s k u p q = laws.le_trans _ _ _ q (
      laws.le_trans _ _ _ (laws.add_zero s (laws.le_self _ _ p).1)
        (laws.add_mono s s (lit 0) x p (laws.le_self _ _ p).1 (laws.le_self _ _ u.0).0 u.0))

  add-nonneg : (x s : F) → InUnit x → fl.le (lit 0) s ≡ true → fl.le (lit 0) (fl.add s x) ≡ true
  add-nonneg x s u p =
      let zero_le = laws.le-hundredths 0 0 (omega arith) (omega arith) in
      laws.le_trans _ _ _ (laws.add_zero (lit 0) zero_le)
        (laws.add_mono (lit 0) s (lit 0) x zero_le p zero_le u.0)

  -- What one child does to the sum, and to the number of healthy children that it covers.
  step-sum-ge :
      (st : State) (x s : F) (k : ℕ)
      → k < 9007199254740992
      → ScoreFits fl st x
      → InUnit x
      → fl.le (lit 0) s ≡ true
      → fl.le (fl.of_int (pos k)) s ≡ true
      → (let s' = if same_state st unknown then s else fl.add s x in
          (fl.le (lit 0) s' ≡ true)
          × (fl.le (fl.of_int (pos (if same_state st healthy then suc k else k))) s' ≡ true))
  step-sum-ge healthy x s k h e u p q = (add-nonneg x s u p, add-full x s k h e p q)
  step-sum-ge degraded x s k h e u p q = (add-nonneg x s u p, add-keeps x s k u p q)
  step-sum-ge unhealthy x s k h e u p q = (add-nonneg x s u p, add-keeps x s k u p q)
  step-sum-ge unknown x s k h e u p q = (p, q)

  sum-tally_child :
      (c : Result F) (t : Tally F)
      → (tally_child c t).sum ≡ (if same_state c.state unknown then t.sum else fl.add t.sum c.score)
  unfolding tally_child
  sum-tally_child c t = ground arith

  tally-sum-ge :
      (cs : List (Result F)) (t : Tally F) (k : ℕ)
      → All (IsSound fl) cs
      → k + healthies cs < 9007199254740992
      → fl.le (lit 0) t.sum ≡ true
      → fl.le (fl.of_int (pos k)) t.sum ≡ true
      → fl.le (fl.of_int (pos (k + healthies cs))) (tally cs t).sum ≡ true
  unfolding tally
  tally-sum-ge [] t k u h p q = rw add-zero q
  tally-sum-ge (c ∷ cs) t k u h p q =
      let next = step-sum-ge c.state c.score t.sum k (omega arith) u.0.fits u.0.in_unit p q in
      let k' = if same_state c.state healthy then suc k else k in
      let e : k' + healthies cs ≡ k + healthies (c ∷ cs) = ground arith in
      rw e at (
        tally-sum-ge cs (tally_child c t) k' u.1 (rw e h) (rw (sum-tally_child c t) next.0)
          (rw (sum-tally_child c t) next.1))

  mean-ge :
      (s : F) (n h : ℕ)
      → 0 < n
      → n < 9007199254740992
      → h ≤ n
      → fl.le (fl.of_int (pos h)) s ≡ true
      → 99 * n ≤ 100 * h
      → at_least (if nat_beq n 0 then lit 50 else fl.div s (fl.of_int (pos n))) (lit 99) ≡ true
  mean-ge s zero h p b c q share = absurd (omega arith)
  mean-ge s (suc m) h p b c q share =
      let nonneg =
        laws.le_trans _ _ _ laws.of_int_zero.0 (laws.of_int_mono (pos 0) (pos h) (omega arith)) in
      ground (
        arith,
        laws.le_trans _ _ _ (laws.le-ratio 99 h m (omega arith) b (omega arith))
            (laws.div_mono (fl.of_int (pos h)) s m nonneg q),
      )

  healthies-le-known : (cs : List (Result F)) → healthies cs ≤ known cs
  healthies-le-known [] = omega arith
  healthies-le-known (c ∷ cs) = ground (arith, healthies-le-known cs)

  -- A roll-up of sound results is healthy as soon as 99 of 100 of its known children are, whatever the
  -- others are: an unhealthy one does not show. There are some known children, and fewer than 2^53.
  pub aggregate-healthy_of_share :
      (cs : List (Result F))
      → All (IsSound fl) cs
      → 0 < known cs
      → known cs < 9007199254740992
      → 99 * known cs ≤ 100 * healthies cs
      → (aggregate cs).state ≡ healthy
  aggregate-healthy_of_share cs u h k share =
      let fewer = healthies-le-known cs in
      let count : (tally cs no_tally).n ≡ known cs = omega (arith, tally-n cs no_tally) in
      let start = laws.le-hundredths 0 0 (omega arith) (omega arith) in
      let sum = tally-sum-ge cs no_tally 0 u (omega arith) start laws.of_int_zero.1 in
      let high : at_least (aggregate cs).score (lit 99) ≡ true =
        rw (score-aggregate cs, count)
          (mean-ge (tally cs no_tally).sum (known cs) (healthies cs) h k fewer (rw zero-add at sum)
            share) in
      ground (arith, aggregate-state cs, known-pos cs)
