-- ===== src/Collector/Restarts.antt =====
-- internal/collector/restart.go: the restart rate of each container and pod. The tracker's mutex
-- makes each method one step.
pub mod Rates
pub mod Quiet
pub mod Falling
use pulsebox.Base.{
  ℕ, String, Bool, true, false, ◌&&◌, List, [], Option, none, some, if◌then◌else◌, string_eq, elem,
}
use pulsebox.Base.Int.{ℤ, pos, Time, Duration, sub_time, sub_int32, ltb_ℤ, quot, rem}
use pulsebox.Base.Dict.{Dict, lookup, put, retain}
use pulsebox.Base.Float.{Float, lit}

pub record RestartSample (F : Type 0) : Type 0 where
  pub count : ℤ
  pub at : Time
  pub rate : F

pub record RestartTracker (F : Type 0) : Type 0 where
  pub samples : Dict String (RestartSample F)
  pub pod_rates : Dict String F

module _ {F : Type 0} where
  -- `newRestartTracker`
  unfoldable pub new_tracker : RestartTracker F
  new_tracker = record { samples = []; pod_rates = [] }

  unfoldable pub set_pod_rate : String → F → RestartTracker F → RestartTracker F
  unfolding put
  set_pod_rate pod rate t = record t { pod_rates = put pod rate t.pod_rates }

  -- The two sets of `prune` are the lists of their members.
  unfoldable pub prune : List String → List String → RestartTracker F → RestartTracker F
  unfolding retain
  prune live_pods live_containers t = record {
    samples = retain (λ k. elem k live_containers) t.samples;
    pod_rates = retain (λ k. elem k live_pods) t.pod_rates;
  }

module _ {F : Type 0} ⦃fl : Float F⦄ where
  -- `d.Minutes()`: the whole minutes, and the rest over 60 * 1e9.
  unfoldable pub minutes : Duration → F
  unfolding quot rem
  minutes d =
      fl.add (fl.of_int (quot d 60000000000))
        (fl.div (fl.of_int (rem d 60000000000)) (fl.of_int (pos 60000000000)))

  unfoldable pub decayed : F → F → F
  decayed rate dt = let x = fl.mul rate (fl.pow_half dt) in if fl.lt x (lit 5) then lit 0 else x

  -- The switch of `observe`.
  unfoldable pub next_rate : RestartSample F → ℤ → F → F
  unfolding sub_int32 decayed
  next_rate prev count dt =
      if ltb_ℤ prev.count count && fl.lt (lit 0) dt
      then fl.div (fl.of_int (sub_int32 count prev.count)) dt
      else if ltb_ℤ count prev.count
      then lit 0
      else if fl.lt (lit 0) dt
      then decayed prev.rate dt
      else prev.rate

  unfoldable pub observed_rate : Option (RestartSample F) → ℤ → Time → F
  unfolding next_rate minutes sub_time
  observed_rate none count now = lit 0
  observed_rate (some prev) count now = next_rate prev count (minutes (sub_time now prev.at))

  -- The tracker afterwards, and the rate that is returned.
  unfoldable pub observe : String → ℤ → Time → RestartTracker F → RestartTracker F × F
  unfolding lookup put observed_rate
  observe key count now t =
      let rate = observed_rate (lookup key t.samples) count now in
      (
        record t { samples = put key (record { count = count; at = now; rate = rate }) t.samples },
        rate,
      )

  -- 0 if the pod is unseen.
  unfoldable pub pod_rate : String → RestartTracker F → F
  unfolding lookup
  pod_rate pod t = elim (lookup pod t.pod_rates) [ none ↦ lit 0 | some r ↦ r ]
