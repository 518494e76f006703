-- ===== src/Collector/Restarts/Rates.antt =====
-- restart.go: one observation of `observe`, and `prune`.
use pulsebox.Base.{String, true, List, some, ◌≡◌, refl, arith, if◌then◌else◌, string_eq, elem, ◌==◌}
use pulsebox.Base.Int.{ℤ, pos, Time, sub_time, sub_int32_exact, IsInt32, ◌-ℤ◌, ◌≤ℤ◌, ◌<ℤ◌}
use pulsebox.Base.Dict.{lookup, lookup-put, lookup-retain}
use pulsebox.Base.Float.{Float, lit}
use pulsebox.Collector.Restarts.{
  RestartSample, RestartTracker, prune, minutes, next_rate, observed_rate, observe, pod_rate,
}

module _ {F : Type 0} ⦃fl : Float F⦄ where
  -- When a container's count, an int32, has gone up from a count that is not negative, and time has
  -- passed, the rate is the true difference of the counts over the minutes since the last
  -- observation: no wrap-around happens.
  pub rising-rate :
      (key : String) (count : ℤ) (now : Time) (t : RestartTracker F) (prev : RestartSample F)
      → lookup key t.samples ≡ some prev
      → IsInt32 prev.count
      → IsInt32 count
      → pos 0 ≤ℤ prev.count
      → prev.count <ℤ count
      → fl.lt (lit 0) (minutes (sub_time now prev.at)) ≡ true
      → (observe key count now t).1
        ≡ fl.div (fl.of_int (count -ℤ prev.count)) (minutes (sub_time now prev.at))
  unfolding observe observed_rate next_rate
  rising-rate key count now t prev found p c nonneg up passed =
      ground (arith, sub_int32_exact count prev.count)

  -- An observation writes the sample of its own key, with the rate that it returns; every other
  -- sample and every pod's rate stay.
  pub lookup-observe :
      (key j : String) (count : ℤ) (now : Time) (t : RestartTracker F)
      → (lookup j (observe key count now t).0.samples ≡ (
          if key == j
          then some (record { count = count; at = now; rate = (observe key count now t).1 })
          else lookup j t.samples))
        × ((observe key count now t).0.pod_rates ≡ t.pod_rates)
  unfolding observe
  lookup-observe key j count now t = (lookup-put key j _ t.samples, refl)

  -- After `prune` a live pod has the rate it had and any other has 0; a live container's next
  -- observation has the rate it would have had, and any other starts again at 0.
  pub prune-rates :
      (pods containers : List String) (t : RestartTracker F) (key : String) (count : ℤ) (now : Time)
      → (pod_rate key (prune pods containers t) ≡ (if elem key pods then pod_rate key t else lit 0))
        × ((observe key count now (prune pods containers t)).1
            ≡ (if elem key containers then (observe key count now t).1 else lit 0))
  unfolding prune pod_rate observe observed_rate
  prune-rates pods containers t key count now =
      let p = lookup-retain (λ k. elem k pods) key t.pod_rates in
      let c = lookup-retain (λ k. elem k containers) key t.samples in
      (ground (arith, p), ground (arith, c))
