-- ===== src/Collector/Events.antt =====
-- internal/collector/accessors.go: `WarningEvents`.
pub mod Recent
use pulsebox.Base.{
  ℕ, zero, suc, String, Bool, true, false, ◌&&◌, ◌||◌, not, List, [], ◌∷◌, if◌then◌else◌, ◌==◌,
  string_eq, concat, trim_space, take, length,
}
use pulsebox.Base.Int.{ℤ, pos, Time, ltb_ℤ, eqb_ℤ}

-- An event of k8s.io/api, as far as it is read.
pub record Event : Type 0 where
  pub namespace : String
  pub etype : String
  pub kind : String
  pub name : String
  pub reason : String
  pub message : String
  pub last_timestamp : Time
  pub event_time : Time

-- `msg`
pub record Message : Type 0 where
  pub at : Time
  pub text : String

abbrev event_at : Event → Time
event_at e = if eqb_ℤ e.last_timestamp (pos 0) then e.event_time else e.last_timestamp

-- The first loop.
unfoldable pub matches_for : String → String → List Event → List Message
unfolding trim_space
matches_for kind name [] = []
matches_for kind name (e ∷ rest) =
    if not (e.etype == "Warning")
    then matches_for kind name rest
    else if not (e.kind == kind) || not (e.name == name)
    then matches_for kind name rest
    else (record { at = event_at e; text = concat (e.reason ∷ ": " ∷ trim_space e.message ∷ []) })
      ∷ matches_for kind name rest

abbrev pub is_later : Message → Message → Bool
is_later a b = ltb_ℤ b.at a.at

-- The inner loop, which exchanges the element at `i` with each later one after it: what stands at `i`
-- at the end, and what stands behind.
unfoldable pub exchange : Message → List Message → Message × List Message
exchange m [] = (m, [])
exchange m (x ∷ rest) =
    let later = is_later x m in
    let (top, behind) = exchange (if later then x else m) rest in
    (top, (if later then m else x) ∷ behind)

-- The outer loop, on the number of elements that are left.
unfoldable pub exchange_sort : ℕ → List Message → List Message
unfolding exchange
exchange_sort zero ms = ms
exchange_sort (suc n) [] = []
exchange_sort (suc n) (m ∷ rest) =
    let (top, behind) = exchange m rest in top ∷ exchange_sort n behind

abbrev pub texts : List Message → List String
texts [] = []
texts (m ∷ ms) = m.text ∷ texts ms

-- The events of a scope: `eventLister.Events(scope)`, or all of them.
unfoldable pub events_in : String → List Event → List Event
events_in scope [] = []
events_in scope (e ∷ rest) =
    if scope == "" || e.namespace == scope then e ∷ events_in scope rest else events_in scope rest

-- A negative limit lists nothing, as 0 does.
unfoldable pub warning_events : List Event → String → String → String → ℕ → List String
unfolding events_in matches_for exchange_sort
warning_events events kind ns name limit =
    let scope = if kind == "Node" || kind == "PersistentVolume" then "" else ns in
    let found = matches_for kind name (events_in scope events) in
    take limit (texts (exchange_sort (length found) found))
