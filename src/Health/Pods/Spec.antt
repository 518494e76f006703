-- ===== src/Health/Pods/Spec.antt =====
-- `Pod` against a specification without the loop and its early return.
use pulsebox.Base.{
  ℕ, suc, ◌+◌, ◌≤◌, String, Bool, false, ◌&&◌, ◌||◌, not, List, [], ◌∷◌, ◌++◌, ◌≡◌, arith, Option,
  none, some, ◌==◌, if◌then◌else◌, length, ltb, string_eq, any, concat, append_assoc, append-nil,
  inl, inr, Option-cases,
}
use pulsebox.Base.Int.{pos, eqb_ℤ}
use pulsebox.Base.Float.{Float, lit}
use pulsebox.K8s.{ContainerStatus}
use pulsebox.Health.{unhealthy, Result}
use pulsebox.Health.Pods.{waits_down, PodScan, failed, scanned, scan_container, scan_containers}

-- The message of a container that waits for a reason that counts as down.
abbrev pub down_message : ContainerStatus → Option String
down_message cs = elim cs.waiting [
  | none ↦ none
  | some r ↦ if waits_down r then some (concat (cs.name ∷ ": " ∷ r ∷ [])) else none
]

abbrev pub first_down : List ContainerStatus → Option String
first_down [] = none
first_down (cs ∷ rest) = elim (down_message cs) [ none ↦ first_down rest | some t ↦ some t ]

abbrev pub is_starting_reason : String → Bool
is_starting_reason r = r == "ContainerCreating" || r == "PodInitializing" || r == ""

abbrev pub is_starting : ContainerStatus → Bool
is_starting cs = elim cs.waiting [ none ↦ false | some r ↦ is_starting_reason r ]

-- The notes that a container adds: another waiting reason, an exit with an error while Running.
abbrev pub wait_note : ContainerStatus → List String
wait_note cs = elim cs.waiting [
  | none ↦ []
  | some r ↦ if is_starting_reason r then [] else concat (cs.name ∷ " waiting: " ∷ r ∷ []) ∷ []
]

abbrev pub exit_note : String → ContainerStatus → List String
exit_note phase cs = elim cs.terminated [
  | none ↦ []
  | some t ↦
      if not (eqb_ℤ t.exit_code (pos 0)) && phase == "Running"
      then concat (cs.name ∷ " terminated: " ∷ t.reason ∷ []) ∷ []
      else []
]

abbrev pub notes : String → List ContainerStatus → List String
notes phase [] = []
notes phase (cs ∷ rest) = wait_note cs ++ (exit_note phase cs ++ notes phase rest)

abbrev pub unready : List ContainerStatus → ℕ
unready [] = 0
unready (cs ∷ rest) = if cs.ready then unready rest else suc (unready rest)

abbrev pub is_ready : ContainerStatus → Bool
is_ready cs = cs.ready

pub unready_bounds :
    (css : List ContainerStatus)
    → (ltb (unready css) (length css) ≡ any is_ready css) × (unready css ≤ length css)
unready_bounds [] = ground arith
unready_bounds (cs ∷ rest) = ground (arith, unready_bounds rest)

abbrev after : String → ContainerStatus → PodScan → PodScan
after phase cs s = record {
  reasons = (s.reasons ++ wait_note cs) ++ exit_note phase cs;
  starting = s.starting || is_starting cs;
  not_ready = if cs.ready then s.not_ready else s.not_ready + 1;
}

module _ {F : Type 0} ⦃fl : Float F⦄ where
  abbrev pub down_verdict : String → Result F
  down_verdict t = record { state = unhealthy; score = lit 0; reasons = t ∷ [] }

  scan_container_down :
      (phase : String) (cs : ContainerStatus) (s : PodScan) (t : String)
      → down_message cs ≡ some t
      → scan_container phase cs s ≡ failed (down_verdict t)
  unfolding scan_container
  scan_container_down phase cs s t h = ground arith

  scan_container_up :
      (phase : String) (cs : ContainerStatus) (s : PodScan)
      → down_message cs ≡ none
      → scan_container {F = F} phase cs s ≡ scanned (after phase cs s)
  unfolding scan_container
  scan_container_up phase cs s h =
      ground (arith, append-nil s.reasons, append-nil (s.reasons ++ wait_note cs))

  pub scan_containers_down :
      (phase : String) (css : List ContainerStatus) (s : PodScan) (t : String)
      → first_down css ≡ some t
      → scan_containers phase css s ≡ failed (down_verdict t)
  unfolding scan_containers
  scan_containers_down phase [] s t h = cc
  scan_containers_down phase (cs ∷ rest) s t h = elim (Option-cases (down_message cs)) [
    | inl e ↦
        rw (scan_container_up phase cs s e, scan_containers)
          (scan_containers_down phase rest (after phase cs s) t (ground arith))
    | inr (u, e) ↦ rw (scan_container_down phase cs s u e, scan_containers) (ground arith)
  ]

  pub scan_containers_up :
      (phase : String) (css : List ContainerStatus) (s : PodScan)
      → first_down css ≡ none
      → scan_containers {F = F} phase css s
        ≡ scanned (record {
          reasons = s.reasons ++ notes phase css;
          starting = s.starting || any is_starting css;
          not_ready = s.not_ready + unready css;
        })
  unfolding scan_containers
  scan_containers_up phase [] s h = ground (arith, append-nil s.reasons)
  scan_containers_up phase (cs ∷ rest) s h = elim (Option-cases (down_message cs)) [
    | inl e ↦
        rw (scan_container_up phase cs s e, scan_containers)
          (ground (
            arith,
            scan_containers_up phase rest (after phase cs s) (ground arith),
            append_assoc s.reasons (wait_note cs) (exit_note phase cs ++ notes phase rest),
            append_assoc (s.reasons ++ wait_note cs) (exit_note phase cs) (notes phase rest),
          ))
    | inr (u, e) ↦ ground arith
  ]
