-- ===== src/Health/Pods/Verdicts.antt =====
-- The verdict of `Pod`, by the phase, the containers and the restart rate.
use pulsebox.Base.{
  ℕ, ◌+◌, String, false, ◌&&◌, ◌||◌, not, List, [], ◌∷◌, ◌++◌, ◌≡◌, refl, arith, none, some, ◌==◌,
  if◌then◌else◌, is_nil, length, nat_beq, string_eq, any, concat, is_some, Bool-cases, inl, inr,
  Option-cases,
}
use pulsebox.Base.Float.{Float, FloatLaws, lit, at_least}
use pulsebox.K8s.{KubePod}
use pulsebox.Health.{State, healthy, degraded, unhealthy, state_score, IsSound, literal-InUnit}
use pulsebox.Health.Pods.{PodScan, scan_verdict, pod}
use pulsebox.Health.Pods.Spec.{
  first_down, is_starting, notes, unready, is_ready, unready_bounds, down_verdict,
  scan_containers_down, scan_containers_up,
}

-- What the loop leaves for the rest of the function where no container is down.
abbrev scan_of : KubePod → PodScan
scan_of p = record {
  reasons = notes p.phase p.container_statuses;
  starting = any is_starting p.container_statuses;
  not_ready = 0 + unready p.container_statuses;
}

-- The state of a pod whose containers are none of them down, once it runs.
abbrev running_state : {F : Type 0} → Float F → KubePod → F → State
running_state fl p rate =
    if nat_beq (unready p.container_statuses) 0
    then (if is_nil (notes p.phase p.container_statuses)
          && not (at_least ⦃fl = fl⦄ rate (fl.hundredths 20))
        then healthy
        else degraded)
    else if any is_ready p.container_statuses
    then degraded
    else unhealthy

-- The state by the phase, the containers and the restart rate, the first that applies.
abbrev pub pod_state : {F : Type 0} → Float F → KubePod → F → State
pod_state fl p rate =
    if p.phase == "Succeeded"
    then healthy
    else if p.phase == "Failed"
    then unhealthy
    else if is_some (first_down p.container_statuses)
    then unhealthy
    else if p.phase == "Pending" || any is_starting p.container_statuses
    then degraded
    else if at_least ⦃fl = fl⦄ rate (fl.hundredths 100)
    then unhealthy
    else running_state fl p rate

is_nil-append : (xs : List String) (x : String) → is_nil (xs ++ x ∷ []) ≡ false
is_nil-append [] x = refl
is_nil-append (y ∷ xs) x = refl

module _ {F : Type 0} ⦃fl : Float F⦄ where
  pod-up :
      (p : KubePod) (rate : F)
      → p.phase == "Succeeded" ≡ false
      → p.phase == "Failed" ≡ false
      → first_down p.container_statuses ≡ none
      → pod p rate ≡ scan_verdict p.phase (length p.container_statuses) rate (scan_of p)
  unfolding pod
  pod-up p rate hs hf h =
      rw
        (
          hs,
          hf,
          scan_containers_up p.phase p.container_statuses
              (record { reasons = []; starting = false; not_ready = 0 }) h,
          pod,
        )
        refl

  -- For a pod that is neither Succeeded nor Failed, the first container that waits for a reason that
  -- counts as down decides: the pod is unhealthy, with score 0 and that container's name and reason,
  -- whatever the other containers and the restart rate are.
  pub pod-down :
      (p : KubePod) (rate : F) (t : String)
      → p.phase == "Succeeded" ≡ false
      → p.phase == "Failed" ≡ false
      → first_down p.container_statuses ≡ some t
      → pod p rate ≡ down_verdict t
  unfolding pod
  pod-down p rate t hs hf h =
      rw
        (
          hs,
          hf,
          scan_containers_down p.phase p.container_statuses
              (record { reasons = []; starting = false; not_ready = 0 }) t h,
          pod,
        )
        refl

  scan_verdict-state :
      (p : KubePod) (rate : F)
      → (scan_verdict p.phase (length p.container_statuses) rate (scan_of p)).state ≡ (
          if p.phase == "Pending" || any is_starting p.container_statuses
          then degraded
          else if at_least rate (lit 100)
          then unhealthy
          else running_state fl p rate)
  unfolding scan_verdict
  scan_verdict-state p rate = ground (
    arith,
    unready_bounds p.container_statuses,
    is_nil-append (notes p.phase p.container_statuses)
        (concat ("elevated restarts (" ∷ fl.show1 rate ∷ "/min)" ∷ [])),
  )

  -- The state of a pod is the first that applies: healthy when Succeeded; unhealthy when Failed or
  -- when a container waits for a reason that counts as down; degraded when Pending or starting;
  -- unhealthy at a restart rate of 1 a minute; else, where all containers are ready, healthy without
  -- notes and below a rate of 0.2, and degraded otherwise; else degraded if some container is ready,
  -- and unhealthy if none is. It is never unknown.
  pub pod-state : (p : KubePod) (rate : F) → (pod p rate).state ≡ pod_state fl p rate
  pod-state p rate = elim (Bool-cases (p.phase == "Succeeded")) [
    | inl e ↦ unfold pod in rw (e, pod)
    | inr a ↦ elim (Bool-cases (p.phase == "Failed")) [
      | inl e ↦ unfold pod in rw (a, e, pod)
      | inr b ↦ elim (Option-cases (first_down p.container_statuses)) [
        | inl up ↦ rw (pod-up p rate a b up, a, b, up) (scan_verdict-state p rate)
        | inr (t, down) ↦ rw (pod-down p rate t a b down, a, b, down)
      ]
    ]
  ]

  scan_verdict-IsSound :
      FloatLaws fl
      → (phase : String) (total : ℕ) (rate : F) (s : PodScan)
      → IsSound fl (scan_verdict phase total rate s)
  unfolding scan_verdict state_score
  scan_verdict-IsSound laws phase total rate s = ground (
    arith,
    literal-InUnit fl laws 10,
    literal-InUnit fl laws 20,
    literal-InUnit fl laws 40,
    literal-InUnit fl laws 50,
    literal-InUnit fl laws 60,
    literal-InUnit fl laws 100,
    laws.le-hundredths 10 20,
    laws.le-hundredths 20 20,
  )

  -- A pod's score is from 0 to 1, is 1 when the pod is healthy and at most 0.2 when it is unhealthy.
  pub pod-IsSound : FloatLaws fl → (p : KubePod) (rate : F) → IsSound fl (pod p rate)
  pod-IsSound laws p rate = elim (Bool-cases (p.phase == "Succeeded")) [
    | inl e ↦ unfold pod in rw (e, pod) (ground (arith, literal-InUnit fl laws 100))
    | inr a ↦ elim (Bool-cases (p.phase == "Failed")) [
      | inl e ↦
          unfold pod in
          rw (a, e, pod) (ground (arith, literal-InUnit fl laws 0, laws.le-hundredths 0 20))
      | inr b ↦ elim (Option-cases (first_down p.container_statuses)) [
        | inl up ↦ rw (pod-up p rate a b up) (scan_verdict-IsSound laws _ _ rate _)
        | inr (t, down) ↦
            rw (pod-down p rate t a b down)
              (ground (arith, literal-InUnit fl laws 0, laws.le-hundredths 0 20))
      ]
    ]
  ]
