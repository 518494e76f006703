-- ===== src/Collector/Restarts/Falling.antt =====
-- restart.go: the decay of `observe` for a container that stops restarting.
use Prim.Native.Nat.{◌<◌}
use pulsebox.Base.{ℕ, String, true, List, [], ◌∷◌, some, ◌≡◌, arith, string_eq, eq_self}
use pulsebox.Base.Int.{ℤ, pos, Time, sub_time, ◌≤ℤ◌}
use pulsebox.Base.Dict.{lookup}
use pulsebox.Base.Float.{Float, FloatLaws}
use pulsebox.Collector.Restarts.{
  RestartSample, RestartTracker, minutes, decayed, next_rate, observed_rate, observe,
}
use pulsebox.Collector.Restarts.Rates.{lookup-observe}
use pulsebox.Collector.Restarts.Quiet.{rates, NeverRises}

-- From 0 to a bound.
abbrev Within : {F : Type 0} → Float F → F → F → Type 0
Within fl r x = (fl.le (fl.hundredths 0) x ≡ true) × (fl.le x r ≡ true)

-- Each number is from 0 to the one before it.
abbrev pub Falling : {F : Type 0} → Float F → F → List F → Type 0
Falling fl r [] = Unit {0}
Falling fl r (x ∷ xs) = Within fl r x × Falling fl x xs

module _ {F : Type 0} ⦃fl : Float F⦄ (laws : FloatLaws fl) (n : ℕ) where
  decayed-Within :
      (rate dt : F)
      → n < 1000000000000000000000
      → Within fl (fl.of_int (pos n)) rate
      → fl.lt (fl.hundredths 0) dt ≡ true
      → Within fl rate (decayed rate dt)
  unfolding decayed
  decayed-Within rate dt small h passed =
      let p = laws.pow_half_unit dt passed in
      let x = laws.mul_unit rate (fl.pow_half dt) n small h.0 h.1 p.0 p.1 in
      ground (arith, x, (laws.le_self _ _ h.0).0)

  next_rate-Within :
      (prev : RestartSample F) (count : ℤ) (dt : F)
      → n < 1000000000000000000000
      → Within fl (fl.of_int (pos n)) prev.rate
      → count ≤ℤ prev.count
      → Within fl prev.rate (next_rate prev count dt)
  unfolding next_rate
  next_rate-Within prev count dt small h falls =
      ground (arith, decayed-Within prev.rate dt small h, laws.le_self _ _ h.0)

  pub rates-Falling :
      (key : String) (obs : List (ℤ × Time)) (t : RestartTracker F) (prev : RestartSample F)
      → n < 1000000000000000000000
      → lookup key t.samples ≡ some prev
      → fl.le (fl.hundredths 0) prev.rate ≡ true
      → fl.le prev.rate (fl.of_int (pos n)) ≡ true
      → NeverRises prev.count obs
      → Falling fl prev.rate (rates key obs t)
  unfolding rates
  rates-Falling key [] t prev small found low high h = tt
  rates-Falling key ((count, now) ∷ obs) t prev small found low high h =
      let step : Within fl prev.rate (observe key count now t).1 =
        unfold observe observed_rate in
        rw (found)
          (next_rate-Within prev count (minutes (sub_time now prev.at)) small (low, high) h.0) in
      (
        step,
        rates-Falling key obs (observe key count now t).0
            (record { count = count; at = now; rate = (observe key count now t).1 }) small
            (ground (arith, lookup-observe key key count now t, eq_self key)) step.0
            (laws.le_trans _ _ _ step.1 high) h.1,
      )
