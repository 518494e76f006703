-- ===== src/Topology/Index.antt =====
-- The loops of `index`, `DiffAgainst` and `applyMessage`, each for nodes and edges alike: `id` is
-- the field ID, and `same` the comparison.
use pulsebox.Base.{
  String, Bool, true, not, List, [], ◌∷◌, Option, none, some, if◌then◌else◌, string_eq, is_some,
}
use pulsebox.Base.Dict.{Dict, lookup, put, delete}

module _ {V : Type 0} (id : V → String) where
  -- `for n in values: m[n.ID] = n`
  unfoldable pub upsert_all : List V → Dict String V → Dict String V
  unfolding put
  upsert_all [] m = m
  upsert_all (x ∷ xs) m = upsert_all xs (put (id x) x m)

  unfoldable pub index_by : List V → Dict String V
  unfolding upsert_all
  index_by xs = upsert_all xs []

module _ {V : Type 0} where
  -- `for id in ids: delete(m, id)`
  unfoldable pub remove_all : List String → Dict String V → Dict String V
  unfolding delete
  remove_all [] m = m
  remove_all (k ∷ ks) m = remove_all ks (delete k m)

  -- `o, ok := old[id]; !ok || !same(o, n)`
  unfoldable pub is_changed : (V → V → Bool) → Option V → V → Bool
  is_changed same none n = true
  is_changed same (some o) n = not (same o n)

  unfoldable pub upserts : (V → V → Bool) → Dict String V → Dict String V → List V
  unfolding lookup is_changed
  upserts same old [] = []
  upserts same old ((k, n) ∷ new) =
      if is_changed same (lookup k old) n then n ∷ upserts same old new else upserts same old new

  -- The keys of the old map that the new map lacks.
  unfoldable pub removed : Dict String V → Dict String V → List String
  unfolding lookup
  removed [] new = []
  removed ((k, o) ∷ old) new =
      if is_some (lookup k new) then removed old new else k ∷ removed old new
