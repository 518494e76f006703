-- ===== src/Health/Nodes/Spec.antt =====
-- `Node` against a specification without the loop.
use pulsebox.Base.{
  String, Bool, true, false, ◌&&◌, ◌||◌, List, [], ◌∷◌, ◌++◌, ◌≡◌, refl, arith, Option, none, some,
  ◌==◌, if◌then◌else◌, is_nil, length, or_else, eq_iff, string_eq, append_assoc, append-nil,
  eq_other, leb,
}
use pulsebox.Base.Float.{Float, FloatLaws, lit}
use pulsebox.K8s.{NodeCondition, KubeNode}
use pulsebox.Health.{
  healthy, degraded, unhealthy, unknown, Result, state_score, IsSound, literal-InUnit,
}
use pulsebox.Health.Nodes.{NodeScan, scan_condition, scan_conditions, node}

-- The specification: the status of the last Ready condition, "Unknown" where there is none, and the
-- number of pressure and network conditions that are True.
abbrev pub last_ready : List NodeCondition → Option String
last_ready [] = none
last_ready (c ∷ cs) = or_else (last_ready cs) (if c.ctype == "Ready" then some c.status else none)

abbrev pub is_active : NodeCondition → Bool
is_active c =
    (c.ctype == "MemoryPressure"
      || c.ctype == "DiskPressure"
      || c.ctype == "PIDPressure"
      || c.ctype == "NetworkUnavailable")
    && c.status == "True"

abbrev pub names_active : List NodeCondition → List String
names_active [] = []
names_active (c ∷ cs) = if is_active c then c.ctype ∷ names_active cs else names_active cs

abbrev pub status_or : String → Option String → String
status_or d none = d
status_or d (some t) = t

abbrev pub ready_status : List NodeCondition → String
ready_status cs = status_or "Unknown" (last_ready cs)

abbrev scanned : NodeCondition → NodeScan → NodeScan
scanned c s = record {
  ready = if c.ctype == "Ready" then c.status == "True" else s.ready;
  ready_status = if c.ctype == "Ready" then c.status else s.ready_status;
  reasons = if is_active c then s.reasons ++ c.ctype ∷ [] else s.reasons;
}

scan_condition_lem : (c : NodeCondition) (s : NodeScan) → scan_condition c s ≡ scanned c s
unfolding scan_condition
scan_condition_lem c s = ground (
  arith,
  ready_is_no "MemoryPressure" refl,
  ready_is_no "DiskPressure" refl,
  ready_is_no "PIDPressure" refl,
  ready_is_no "NetworkUnavailable" refl,
  (eq_iff c.ctype "NetworkUnavailable").0,
)
  where
    ready_is_no :
        (t : String) → ("Ready" == t) ≡ false → (c.ctype == "Ready") ≡ true → (c.ctype == t) ≡ false
    ready_is_no = eq_other c.ctype "Ready"

scan_conditions_lem :
    (cs : List NodeCondition) (s : NodeScan)
    → s.ready ≡ (s.ready_status == "True")
    → scan_conditions cs s ≡ record {
      ready = status_or s.ready_status (last_ready cs) == "True";
      ready_status = status_or s.ready_status (last_ready cs);
      reasons = s.reasons ++ names_active cs;
    }
unfolding scan_conditions
scan_conditions_lem [] s h = ground (arith, append-nil s.reasons)
scan_conditions_lem (c ∷ cs) s h = rw (scan_condition_lem c s) (
    ground (
      arith,
      scan_conditions_lem cs (scanned c s) (ground arith),
      append_assoc s.reasons (c.ctype ∷ []) (names_active cs),
    ))

-- The pressures that are active, then the cordon.
abbrev pub problems : KubeNode → List String
problems n =
    names_active n.conditions
    ++ (if n.unschedulable then "cordoned (SchedulingDisabled)" ∷ [] else [])

module _ {F : Type 0} ⦃fl : Float F⦄ where
  abbrev pub degraded_by : List String → Result F
  degraded_by reasons = record {
    state = degraded;
    score = if leb 2 (length reasons) then lit 50 else lit 70;
    reasons = reasons;
  }

  -- The verdict, from the last Ready status and the problems.
  abbrev pub node_spec : KubeNode → Result F
  node_spec n =
      if ready_status n.conditions == "Unknown"
      then record {
        state = unknown;
        score = lit 50;
        reasons = "NodeReady=Unknown (kubelet not reporting)" ∷ [];
      }
      else if ready_status n.conditions == "True"
      then (if is_nil (problems n)
          then record { state = healthy; score = lit 100; reasons = [] }
          else degraded_by (problems n))
      else record {
        state = unhealthy;
        score = lit 0;
        reasons = "NodeReady=False" ∷ names_active n.conditions;
      }

  -- A node's verdict, state, score and reasons, is read off the last Ready condition and the active
  -- pressures: unknown when Ready is missing or Unknown; unhealthy with the pressures when it is not
  -- True; else healthy if there is no pressure and no cordon, and degraded by them otherwise, with
  -- score 0.7 for one and 0.5 for more.
  pub node-eq-spec : (n : KubeNode) → node n ≡ node_spec n
  unfolding node state_score
  node-eq-spec n = ground (
    arith,
    scan_conditions_lem n.conditions
        (record { ready = false; ready_status = "Unknown"; reasons = [] }) refl,
    append-nil (names_active n.conditions),
  )

  -- A node's score is from 0 to 1, is 1 when the node is healthy, at most 0.2 when it is unhealthy and
  -- 0.5 when it is unknown.
  pub node-IsSound : FloatLaws fl → (n : KubeNode) → IsSound fl (node n)
  unfolding node state_score
  node-IsSound laws n = ground (
    arith,
    literal-InUnit fl laws 0,
    literal-InUnit fl laws 50,
    literal-InUnit fl laws 70,
    literal-InUnit fl laws 100,
    laws.le-hundredths 0 20,
  )
