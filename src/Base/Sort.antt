-- ===== src/Base/Sort.antt =====
-- sort.Slice, by insertion. Where `less` orders distinct elements strictly, the result does not
-- depend on the algorithm nor on the order of the input.
use mathlib.Core.Path.{◌≡◌, refl, ◌∙◌}
use mathlib.Core.Bool.{Bool, true, false}
use mathlib.Core.Logic.{∥∥₁_elim, inl, inr}
use mathlib.Core.List.{List, [], ◌∷◌, Perm, Permᴰ}
use mathlib.Core.List.Perm
use native.Mathlib.Omega.{arith}
use pulsebox.Base.Tests.{if◌then◌else◌, Bool-cases}

-- The laws of a strict total order.
pub record StrictOrder {ℓ} {A : Type ℓ} (less : A → A → Bool) : Type ℓ where
  pub asym : (a b : A) → less a b ≡ true → less b a ≡ false
  pub trans : (a b c : A) → less a b ≡ true → less b c ≡ true → less a c ≡ true
  pub tri : (a b : A) → less a b ≡ false → less b a ≡ false → a ≡ b

module _ {ℓ} {A : Type ℓ} (less : A → A → Bool) where
  unfoldable pub insert : A → List A → List A
  insert x [] = x ∷ []
  insert x (y ∷ ys) = if less y x then y ∷ insert x ys else x ∷ y ∷ ys

  unfoldable pub sort : List A → List A
  unfolding insert
  sort [] = []
  sort (x ∷ xs) = insert x (sort xs)

  -- No element is less than one that stands before it.
  abbrev pub NoneLess : A → List A → Type 0
  NoneLess x [] = Unit
  NoneLess x (y ∷ ys) = (less y x ≡ false) × NoneLess x ys

  abbrev pub IsSorted : List A → Type 0
  IsSorted [] = Unit
  IsSorted (x ∷ xs) = NoneLess x xs × IsSorted xs

  insert-perm : (x : A) (xs : List A) → Perm (insert x xs) (x ∷ xs)
  unfolding insert
  insert-perm x [] = Perm.refl _
  insert-perm x (y ∷ ys) = elim (Bool-cases (less y x)) [
    | inl h ↦ rw h (Perm.trans (Perm.cons y (insert-perm x ys)) (Perm.swap x y ys))
    | inr h ↦ rw h (Perm.refl _)
  ]

  pub sort-perm : (xs : List A) → Perm (sort xs) xs
  unfolding sort
  sort-perm [] = Perm.refl _
  sort-perm (x ∷ xs) = Perm.trans (insert-perm x (sort xs)) (Perm.cons x (sort-perm xs))

  module _ (o : StrictOrder less) where
    NoneLess-insert :
        (z x : A) (xs : List A) → less x z ≡ false → NoneLess z xs → NoneLess z (insert x xs)
    unfolding insert
    NoneLess-insert z x [] h n = (h, tt)
    NoneLess-insert z x (y ∷ ys) h n = ground (arith, NoneLess-insert z x ys h n.1)

    not-less_trans : (x y z : A) → less y x ≡ false → less z y ≡ false → less z x ≡ false
    not-less_trans x y z p q = elim (Bool-cases (less x y)) [
      | inl xy ↦ elim (Bool-cases (less z x)) [
        | inl zx ↦ cc (o.trans z x y zx xy)
        | inr done ↦ done
      ]
      | inr xy ↦ rw (o.tri x y xy p) q
    ]

    NoneLess-weaken : (x y : A) (ys : List A) → less y x ≡ false → NoneLess y ys → NoneLess x ys
    NoneLess-weaken x y [] h n = tt
    NoneLess-weaken x y (z ∷ zs) h n = (not-less_trans x y z h n.0, NoneLess-weaken x y zs h n.1)

    insert-IsSorted : (x : A) (xs : List A) → IsSorted xs → IsSorted (insert x xs)
    unfolding insert
    insert-IsSorted x [] s = (tt, tt)
    insert-IsSorted x (y ∷ ys) s = elim (Bool-cases (less y x)) [
      | inl h ↦ rw h (NoneLess-insert y x ys (o.asym y x h) s.0, insert-IsSorted x ys s.1)
      | inr h ↦ rw h ((h, NoneLess-weaken x y ys h s.0), s)
    ]

    pub sort-IsSorted : (xs : List A) → IsSorted (sort xs)
    unfolding sort
    sort-IsSorted [] = tt
    sort-IsSorted (x ∷ xs) = insert-IsSorted x (sort xs) (sort-IsSorted xs)

    insert_comm : (x y : A) (l : List A) → insert x (insert y l) ≡ insert y (insert x l)
    unfolding insert
    insert_comm x y [] = ground (arith, o.asym x y, o.asym y x, o.tri x y)
    insert_comm x y (z ∷ l) = ground (
      arith,
      o.asym x y,
      o.asym y x,
      o.tri x y,
      o.trans z x y,
      o.trans z y x,
      o.trans x y z,
      o.trans y x z,
      not-less_trans x y z,
      not-less_trans y x z,
      insert_comm x y l,
    )

    sort-permᴰ : {xs ys : List A} → Permᴰ xs ys → sort xs ≡ sort ys
    unfolding sort
    sort-permᴰ Permᴰ.nil = refl
    sort-permᴰ (Permᴰ.cons e p) = cc (e, sort-permᴰ p)
    sort-permᴰ (Permᴰ.swap {a} {b} {l} e f) = rw (← e, ← f) (insert_comm a b (sort l))
    sort-permᴰ (Permᴰ.trans p q) = sort-permᴰ p ∙ sort-permᴰ q

    -- Sorting forgets the order of its input.
    pub sort-eq_of_perm : IsSet (List A) → {xs ys : List A} → Perm xs ys → sort xs ≡ sort ys
    sort-eq_of_perm s {xs} {ys} p = ∥∥₁_elim p (s (sort xs) (sort ys)) sort-permᴰ
