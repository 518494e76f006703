-- ===== src/Health/Pods.antt =====
-- health.go: `containerWaitReasonsDown` and `Pod`.
pub mod Spec
pub mod Verdicts
use pulsebox.Base.{
  ℕ, suc, ◌+◌, String, Bool, true, false, ◌&&◌, ◌||◌, not, List, [], ◌∷◌, ◌++◌, Option, none, some,
  ◌==◌, if◌then◌else◌, is_nil, length, ltb, nat_beq, string_eq, elem, concat, show_nat,
}
use pulsebox.Base.Int.{ℤ, pos, eqb_ℤ}
use pulsebox.Base.Float.{Float, lit, at_least}
use pulsebox.K8s.{Terminated, ContainerStatus, KubePod}
use pulsebox.Health.{State, healthy, degraded, unhealthy, Result, result}

abbrev pub wait_reasons_down : List String
wait_reasons_down =
    "CrashLoopBackOff" ∷ "ImagePullBackOff" ∷ "ErrImagePull" ∷ "CreateContainerConfigError"
    ∷ "CreateContainerError" ∷ "InvalidImageName" ∷ "RunContainerError" ∷ []

-- `containerWaitReasonsDown[r]`
unfoldable pub waits_down : String → Bool
waits_down r = elem r wait_reasons_down

-- The variables of the loop over the containers.
pub record PodScan : Type 0 where
  pub reasons : List String
  pub starting : Bool
  pub not_ready : ℕ

-- The loop returns from the function, or goes on.
pub data Scanned (F : Type 0) : Type 0 where
  failed : Result F → Scanned F
  scanned : PodScan → Scanned F

count_ready : ContainerStatus → PodScan → PodScan
count_ready cs s = if not cs.ready then record s { not_ready = s.not_ready + 1 } else s

-- The second `if` of the loop's body: a container that exited with an error.
note_exit : String → ContainerStatus → Option Terminated → PodScan → PodScan
note_exit phase cs none s = s
note_exit phase cs (some t) s =
    if not (eqb_ℤ t.exit_code (pos 0)) && phase == "Running"
    then record s { reasons = s.reasons ++ concat (cs.name ∷ " terminated: " ∷ t.reason ∷ []) ∷ [] }
    else s

module _ {F : Type 0} ⦃fl : Float F⦄ where
  -- The first `if`: a container that waits.
  note_waiting : ContainerStatus → Option String → PodScan → Scanned F
  note_waiting cs none s = scanned s
  note_waiting cs (some r) s =
      if waits_down r
      then failed (record {
        state = unhealthy;
        score = lit 0;
        reasons = concat (cs.name ∷ ": " ∷ r ∷ []) ∷ [];
      })
      else if r == "ContainerCreating" || r == "PodInitializing" || r == ""
      then scanned (record s { starting = true })
      else scanned
          (record s { reasons = s.reasons ++ concat (cs.name ∷ " waiting: " ∷ r ∷ []) ∷ [] })

  unfoldable pub scan_container : String → ContainerStatus → PodScan → Scanned F
  unfolding count_ready note_waiting note_exit
  scan_container phase cs s = elim (note_waiting cs cs.waiting (count_ready cs s)) [
    | failed r ↦ failed r
    | scanned s' ↦ scanned (note_exit phase cs cs.terminated s')
  ]

  unfoldable pub scan_containers : String → List ContainerStatus → PodScan → Scanned F
  unfolding scan_container
  scan_containers phase [] s = scanned s
  scan_containers phase (cs ∷ rest) s = elim (scan_container phase cs s) [
    | failed r ↦ failed r
    | scanned s' ↦ scan_containers phase rest s'
  ]

  -- The end of the function, from `phase == Running && notReady == 0 && …` on.
  unfoldable pub ready_verdict : String → ℕ → ℕ → List String → Result F
  unfolding result
  ready_verdict phase total not_ready reasons =
      if phase == "Running" && nat_beq not_ready 0 && is_nil reasons
      then result healthy []
      else if ltb 0 not_ready && ltb not_ready total
      then record {
        state = degraded;
        score = lit 50;
        reasons =
            concat (show_nat not_ready ∷ "/" ∷ show_nat total ∷ " containers not ready" ∷ [])
            ∷ reasons;
      }
      else if ltb 0 not_ready
      then record { state = unhealthy; score = lit 10; reasons = "no containers ready" ∷ reasons }
      else if not (is_nil reasons)
      then record { state = degraded; score = lit 60; reasons = reasons }
      else result healthy []

  -- What follows the loop.
  unfoldable pub scan_verdict : String → ℕ → F → PodScan → Result F
  unfolding ready_verdict
  scan_verdict phase total rate s =
      if phase == "Pending" || s.starting
      then record {
        state = degraded;
        score = lit 40;
        reasons = "Pending/ContainerCreating" ∷ s.reasons;
      }
      else if at_least rate (lit 100)
      then record {
        state = unhealthy;
        score = lit 20;
        reasons = s.reasons ++ concat ("restarting rapidly (" ∷ fl.show1 rate ∷ "/min)" ∷ []) ∷ [];
      }
      else ready_verdict phase total s.not_ready (
          if at_least rate (lit 20)
          then s.reasons ++ concat ("elevated restarts (" ∷ fl.show1 rate ∷ "/min)" ∷ []) ∷ []
          else s.reasons)

  unfoldable pub pod : KubePod → F → Result F
  unfolding scan_containers scan_verdict
  pod p rate =
      if p.phase == "Succeeded"
      then record { state = healthy; score = lit 100; reasons = "Succeeded (terminal)" ∷ [] }
      else if p.phase == "Failed"
      then record {
        state = unhealthy;
        score = lit 0;
        reasons = (if p.reason == "" then "pod Failed" else p.reason) ∷ [];
      }
      else elim (scan_containers p.phase p.container_statuses
          (record { reasons = []; starting = false; not_ready = 0 })) [
            | failed r ↦ r
            | scanned s ↦ scan_verdict p.phase (length p.container_statuses) rate s
          ]
