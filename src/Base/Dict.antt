-- ===== src/Base/Dict.antt =====
-- Go's maps: an association list with at most one entry for a key. Go iterates over a map in an
-- unspecified order; here that is the order of the entries.
use mathlib.Core.Path.{◌≡◌, refl, ap}
use mathlib.Core.Bool.{Bool}
use mathlib.Core.Logic.{inl, inr}
use mathlib.Core.List.{List, [], ◌∷◌}
use mathlib.Core.Option.{Option, none, some}
use native.Mathlib.Omega.{arith}
use pulsebox.Base.Tests.{Eq, ◌==◌, if◌then◌else◌, is_some, Bool-cases}
use pulsebox.Base.Lists.{elem}

abbrev pub Dict {ℓ} : Type ℓ → Type ℓ → Type ℓ
Dict K V = List (K × V)

module _ {ℓ} {K V : Type ℓ} ⦃e : Eq K⦄ where
  -- `v, ok := m[k]`
  unfoldable pub lookup : K → Dict K V → Option V
  lookup k [] = none
  lookup k ((i, x) ∷ rest) = if i == k then some x else lookup k rest

  -- `m[k] = v`
  unfoldable pub put : K → V → Dict K V → Dict K V
  put k v [] = (k, v) ∷ []
  put k v ((i, old) ∷ rest) = if i == k then (k, v) ∷ rest else (i, old) ∷ put k v rest

  -- `delete(m, k)`
  unfoldable pub delete : K → Dict K V → Dict K V
  delete k [] = []
  delete k ((j, v) ∷ m) = if j == k then delete k m else (j, v) ∷ delete k m

  -- The loop that deletes the entries whose key fails a test.
  unfoldable pub retain : (K → Bool) → Dict K V → Dict K V
  retain live [] = []
  retain live ((k, v) ∷ m) = if live k then (k, v) ∷ retain live m else retain live m

  abbrev pub keys : Dict K V → List K
  keys [] = []
  keys ((k, v) ∷ m) = k ∷ keys m

  -- Each key stands once.
  abbrev pub Distinct : Dict K V → Type ℓ
  Distinct [] = Unit
  Distinct ((k, v) ∷ m) = (lookup k m ≡ none) × Distinct m

  pub lookup-put :
      (k j : K) (v : V) (m : Dict K V)
      → lookup j (put k v m) ≡ (if k == j then some v else lookup j m)
  unfolding lookup put
  lookup-put k j v [] = refl
  lookup-put k j v ((i, w) ∷ m) =
      ground (arith, e.equal_iff k j, e.equal_iff i k, e.equal_iff i j, lookup-put k j v m)

  pub lookup-delete :
      (k j : K) (m : Dict K V) → lookup j (delete k m) ≡ (if k == j then none else lookup j m)
  unfolding lookup delete
  lookup-delete k j [] = ground arith
  lookup-delete k j ((i, w) ∷ m) =
      ground (arith, e.equal_iff k j, e.equal_iff i k, e.equal_iff i j, lookup-delete k j m)

  pub lookup-retain :
      (live : K → Bool) (j : K) (m : Dict K V)
      → lookup j (retain live m) ≡ (if live j then lookup j m else none)
  unfolding lookup retain
  lookup-retain live j [] = ground arith
  lookup-retain live j ((i, w) ∷ m) = elim (Bool-cases (i == j)) [
    | inl hit ↦ ground (arith, hit, ap live ((e.equal_iff i j).0 hit), lookup-retain live j m)
    | inr miss ↦ ground (arith, lookup-retain live j m)
  ]

  pub put-Distinct : (k : K) (v : V) (m : Dict K V) → Distinct m → Distinct (put k v m)
  unfolding lookup put
  put-Distinct k v [] d = (refl, tt)
  put-Distinct k v ((j, w) ∷ m) d =
      ground (arith, e.equal_iff j k, e.equal_iff k j, lookup-put k j v m, put-Distinct k v m d.1)

  pub delete-Distinct : (k : K) (m : Dict K V) → Distinct m → Distinct (delete k m)
  unfolding lookup delete
  delete-Distinct k [] d = tt
  delete-Distinct k ((j, w) ∷ m) d = ground (arith, lookup-delete k j m, delete-Distinct k m d.1)

  -- A key is listed exactly if it has a value.
  pub elem-keys : (k : K) (m : Dict K V) → elem k (keys m) ≡ is_some (lookup k m)
  unfolding lookup
  elem-keys k [] = refl
  elem-keys k ((j, w) ∷ m) = ground (arith, elem-keys k m)
