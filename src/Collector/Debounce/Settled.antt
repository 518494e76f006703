-- ===== src/Collector/Debounce/Settled.antt =====
-- collector.go: the versions that `rebuildLoop` has seen, and what is left for it to do.
use pulsebox.Base.{
  ℕ, zero, suc, ◌+◌, ◌≤◌, ◌<◌, Bool, true, false, ◌||◌, Option, none, some, ◌≡◌, refl, arith,
  if◌then◌else◌, ltb, nat_beq, Bool-cases, Option-cases, inl, inr, is_some, ◌∙◌,
}
use pulsebox.Collector.Debounce.{
  Loop, mark_dirty, start, on_dirty, on_timer, finish_rebuild, LoopStep, takes, fires, finishes,
  Step, loops, changes, handles, Reach, here, next,
}

-- Something is under way that leads to a rebuild.
abbrev pub pending : Loop → Bool
pending s = ltb 0 s.handlers || s.dirty || s.timer

abbrev seen_by : Option ℕ → ℕ → ℕ
seen_by none built = built
seen_by (some v) built = v

-- The version that the rebuild that runs sees, or else the last one.
abbrev pub seen : Loop → ℕ
seen s = seen_by s.building s.built

abbrev pub IsAware : Loop → Type 0
IsAware s = (pending s || nat_beq (seen s) s.version) ≡ true

LoopStep-IsAware : {s u : Loop} → LoopStep s u → IsAware s → IsAware u
unfolding on_dirty on_timer finish_rebuild
LoopStep-IsAware (takes s idle d) h = ground arith
LoopStep-IsAware (fires s idle t) h = ground arith
LoopStep-IsAware (finishes s v b) h = ground arith

Step-IsAware : {s u : Loop} → Step s u → IsAware s → IsAware u
unfolding mark_dirty
Step-IsAware (loops st) h = LoopStep-IsAware st h
Step-IsAware (changes s) h = ground arith
Step-IsAware (handles s n e) h = ground arith

Reach-IsAware : {s u : Loop} → Reach s u → IsAware s → IsAware u
Reach-IsAware here h = h
Reach-IsAware (next r st) h = Step-IsAware st (Reach-IsAware r h)

start-IsAware : (v n : ℕ) (d : Bool) → IsAware (start v n d)
unfolding start
start-IsAware v n d = ground arith

-- In any history from the start, once no handler is left to run, no signal waits, no timer is set and
-- no rebuild runs, the last rebuild has seen the current version of the caches.
pub settled-current :
    {u : Loop} (version handlers : ℕ) (dirty : Bool)
    → Reach (start version handlers dirty) u
    → u.handlers ≡ 0
    → u.dirty ≡ false
    → u.timer ≡ false
    → u.building ≡ none
    → u.built ≡ u.version
settled-current {u} version handlers dirty r h d t b =
    let aware = Reach-IsAware r (start-IsAware version handlers dirty) in ground arith

-- What is left for the loop to do.
abbrev pub rank : Loop → ℕ
rank s =
    (if s.dirty then 3 else 0) + (if s.timer then 2 else 0) + (if is_some s.building then 1 else 0)

pub LoopStep-rank : {s u : Loop} → LoopStep s u → rank u < rank s
unfolding on_dirty on_timer finish_rebuild
LoopStep-rank (takes s idle d) = ground arith
LoopStep-rank (fires s idle t) = ground arith
LoopStep-rank (finishes s v b) = ground arith

-- A run of the loop alone.
pub data Run : ℕ → Loop → Loop → Type 0 where
  done : (s : Loop) → Run 0 s s
  more : (n : ℕ) {s t u : Loop} → LoopStep s t → Run n t u → Run (suc n) s u

Run-rank : {n : ℕ} {s u : Loop} → Run n s u → n + rank u ≤ rank s
Run-rank (done s) = omega arith
Run-rank (more n {s} {t} {u} st r) = omega (arith, LoopStep-rank st, Run-rank r)

-- In any run of the loop alone, whatever it chooses where a signal and the timer are both ready, there
-- are at most six steps.
pub Run-length-le : {n : ℕ} {s u : Loop} → Run n s u → n ≤ 6
Run-length-le {n} {s} {u} r = ground (arith, Run-rank r)

-- While there is something left to do, the loop can go on.
pub LoopStep-exists : (s : Loop) → 0 < rank s → (u : Loop) × LoopStep s u
LoopStep-exists s h = elim (Option-cases s.building) [
  | inr (v, b) ↦ (finish_rebuild v s, finishes s v b)
  | inl idle ↦ elim (Bool-cases s.dirty) [
    | inl d ↦ (on_dirty s, takes s idle d)
    | inr d ↦ (on_timer s, fires s idle (ground arith))
  ]
]

settle-Run : (f : ℕ) (s : Loop) → rank s < f → (n : ℕ) × (u : Loop) × Run n s u × (rank u ≡ 0)
settle-Run zero s h = elim h [ ]
settle-Run (suc f) s h = elim (Bool-cases (ltb 0 (rank s))) [
  | inl busy ↦
      let (t, st) = LoopStep-exists s (ground (arith, busy)) in
      let (n, u, r, z) = settle-Run f t (omega (arith, LoopStep-rank st)) in
      (suc n, u, more n st r, z)
  | inr idle ↦ (0, s, done s, ground (arith, idle))
]

LoopStep-keeps : {s u : Loop} → LoopStep s u → (u.version ≡ s.version) × (u.handlers ≡ s.handlers)
unfolding on_dirty on_timer finish_rebuild
LoopStep-keeps (takes s idle d) = ground arith
LoopStep-keeps (fires s idle t) = (refl, refl)
LoopStep-keeps (finishes s v b) = (refl, refl)

Run-keeps : {n : ℕ} {s u : Loop} → Run n s u → (u.version ≡ s.version) × (u.handlers ≡ s.handlers)
Run-keeps (done s) = (refl, refl)
Run-keeps (more n st r) =
    let (a, b) = LoopStep-keeps st in let (c, d) = Run-keeps r in (c ∙ a, d ∙ b)

Run-Reach : {n : ℕ} {s t u : Loop} → Reach s t → Run n t u → Reach s u
Run-Reach p (done t) = p
Run-Reach p (more n st r) = Run-Reach (next p (loops st)) r

-- In any history from the start, once no handler is left to run, the loop alone comes to rest in at
-- most six steps, with the current version of the caches built.
pub settles :
    {s : Loop} (version handlers : ℕ) (dirty : Bool)
    → Reach (start version handlers dirty) s
    → s.handlers ≡ 0
    → (n : ℕ) × (u : Loop) × Run n s u × (n ≤ 6) × (rank u ≡ 0) × (u.built ≡ s.version)
settles {s} version handlers dirty p h =
    let (n, u, r, z) = settle-Run (suc (rank s)) s (omega arith) in
    let (same, quiet) = Run-keeps r in
    (
      n,
      u,
      r,
      Run-length-le r,
      z,
      settled-current version handlers dirty (Run-Reach p r) (quiet ∙ h) (ground arith)
            (ground arith) (ground arith)
          ∙ same,
    )
