-- ===== src/Base/Lists.antt =====
-- Lists measured by native numbers, and tests over lists.
use Prim.Native.Nat.{ℕ, zero, suc, ◌+◌, ◌≤◌}
use mathlib.Core.Path.{◌≡◌}
use mathlib.Core.Bool.{Bool, true, false, ◌||◌}
use mathlib.Core.List.{List, [], ◌∷◌, ◌++◌}
use native.Mathlib.Omega.{arith}
use pulsebox.Base.Tests.{Eq, ◌==◌, if◌then◌else◌}

module _ {ℓ} {A : Type ℓ} where
  abbrev pub is_nil : List A → Bool
  is_nil [] = true
  is_nil (x ∷ xs) = false

  abbrev pub take : ℕ → List A → List A
  take zero l = []
  take (suc n) [] = []
  take (suc n) (a ∷ l) = a ∷ take n l

  -- The elements that pass a test.
  unfoldable pub keep_if : (A → Bool) → List A → List A
  keep_if p [] = []
  keep_if p (x ∷ xs) = if p x then x ∷ keep_if p xs else keep_if p xs

  abbrev pub length : List A → ℕ
  length [] = 0
  length (a ∷ l) = suc (length l)

  abbrev pub any : (A → Bool) → List A → Bool
  any p [] = false
  any p (x ∷ xs) = p x || any p xs

  abbrev pub All {κ} : (A → Type κ) → List A → Type κ
  All P [] = Unit
  All P (x ∷ xs) = P x × All P xs

  pub length-take-le : (n : ℕ) (l : List A) → length (take n l) ≤ n
  length-take-le zero l = omega arith
  length-take-le (suc n) [] = omega arith
  length-take-le (suc n) (a ∷ l) = ground (arith, length-take-le n l)

  pub length-append : (xs ys : List A) → length (xs ++ ys) ≡ length xs + length ys
  length-append [] ys = omega arith
  length-append (x ∷ xs) ys = omega (arith, length-append xs ys)

module _ {ℓ} {A : Type ℓ} ⦃e : Eq A⦄ where
  -- Whether a list holds a value: the membership test of a Go map used as a set.
  abbrev pub elem : A → List A → Bool
  elem a [] = false
  elem a (x ∷ xs) = (x == a) || elem a xs
