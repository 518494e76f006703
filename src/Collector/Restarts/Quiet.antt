-- ===== src/Collector/Restarts/Quiet.antt =====
-- restart.go: `observe` for a container that does not restart.
use pulsebox.Base.{
  String, true, List, [], ◌∷◌, none, some, ◌≡◌, refl, arith, string_eq, All, eq_self,
}
use pulsebox.Base.Int.{ℤ, Time, sub_time, ◌≤ℤ◌}
use pulsebox.Base.Dict.{lookup}
use pulsebox.Base.Float.{Float, FloatLaws}
use pulsebox.Collector.Restarts.{
  RestartSample, RestartTracker, minutes, decayed, next_rate, observed_rate, observe,
}
use pulsebox.Collector.Restarts.Rates.{lookup-observe}

-- The rates that successive observations of one key return.
unfoldable pub rates :
    {F : Type 0} ⦃fl : Float F⦄ → String → List (ℤ × Time) → RestartTracker F → List F
unfolding observe
rates key [] t = []
rates key ((count, now) ∷ obs) t = let (u, rate) = observe key count now t in rate ∷ rates key obs u

-- No count is above the one before it.
abbrev pub NeverRises : ℤ → List (ℤ × Time) → Type 0
NeverRises c [] = Unit
NeverRises c ((count, now) ∷ obs) = (count ≤ℤ c) × NeverRises count obs

module _ {F : Type 0} ⦃fl : Float F⦄ (laws : FloatLaws fl) where
  decayed-zero :
      (dt : F) → fl.lt (fl.hundredths 0) dt ≡ true → decayed (fl.hundredths 0) dt ≡ fl.hundredths 0
  unfolding decayed
  decayed-zero dt passed =
      let (low, high) = laws.pow_half_unit dt passed in
      let zero = fl.hundredths 0 in
      let small =
        (laws.mul_unit zero (fl.pow_half dt) 0 (omega arith) (laws.le_self _ _ laws.of_int_zero.0).0
          laws.of_int_zero.0 low high).1 in
      let x = fl.mul (fl.hundredths 0) (fl.pow_half dt) in
      ground (
        arith,
        small,
        laws.le_self x (fl.hundredths 0) small,
        laws.le_trans (fl.hundredths 5) x (fl.hundredths 0),
        laws.lt-le x (fl.hundredths 5),
        laws.le-hundredths 5 0,
        laws.le-hundredths 5 5,
      )

  next_rate-zero :
      (prev : RestartSample F) (count : ℤ) (dt : F)
      → prev.rate ≡ fl.hundredths 0
      → count ≤ℤ prev.count
      → next_rate prev count dt ≡ fl.hundredths 0
  unfolding next_rate
  next_rate-zero prev count dt z h = ground (arith, decayed-zero dt)

  still-zero :
      (key : String) (obs : List (ℤ × Time)) (t : RestartTracker F) (prev : RestartSample F)
      → lookup key t.samples ≡ some prev
      → prev.rate ≡ fl.hundredths 0
      → NeverRises prev.count obs
      → All (λ r. r ≡ fl.hundredths 0) (rates key obs t)
  unfolding rates
  still-zero key [] t prev found z h = tt
  still-zero key ((count, now) ∷ obs) t prev found z h =
      let rate : (observe key count now t).1 ≡ fl.hundredths 0 =
        unfold observe observed_rate in
        rw (found) (next_rate-zero prev count (minutes (sub_time now prev.at)) z h.0) in
      (
        rate,
        still-zero key obs (observe key count now t).0
            (record { count = count; at = now; rate = (observe key count now t).1 })
            (ground (arith, lookup-observe key key count now t, eq_self key)) rate h.1,
      )

  -- A container that is first seen now and whose count never goes up afterwards has rate 0 at every
  -- observation, whatever the times of the observations are.
  pub quiet-rates :
      (key : String) (count : ℤ) (now : Time) (obs : List (ℤ × Time)) (t : RestartTracker F)
      → lookup key t.samples ≡ none
      → NeverRises count obs
      → All (λ r. r ≡ fl.hundredths 0) (rates key ((count, now) ∷ obs) t)
  unfolding rates
  quiet-rates key count now obs t unseen h =
      let rate : (observe key count now t).1 ≡ fl.hundredths 0 =
        unfold observe observed_rate in rw (unseen) refl in
      (
        rate,
        still-zero key obs (observe key count now t).0
            (record { count = count; at = now; rate = (observe key count now t).1 })
            (ground (arith, lookup-observe key key count now t, eq_self key)) rate h,
      )
