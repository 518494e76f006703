-- ===== src/Base/Tests.antt =====
-- Boolean tests, the conditional, and the interface of decidable equality.
use Prim.Native.Nat.{ℕ, compare, Ordering}
use Prim.Native.String.{String}
use mathlib.Core.Path.{◌≡◌, refl}
use mathlib.Core.Logic.{◌↔◌, ◌⊎◌, inl, inr}
use mathlib.Core.Bool.{Bool, true, false}
use mathlib.Core.Option.{Option, none, some}
use native.Mathlib.Omega.{arith}
use text.Mathlib.Text.{◌==◌ as str_eq}
use text.Mathlib.TextEquality.{eq_iff}

-- These compute to `compare`, which `ground` and `grind` read with no lemma listed.
abbrev pub ltb : ℕ → ℕ → Bool
ltb a b = elim (compare a b) [ Ordering.lt ↦ true | _ ↦ false ]

abbrev pub leb : ℕ → ℕ → Bool
leb a b = elim (compare a b) [ Ordering.gt ↦ false | _ ↦ true ]

abbrev pub nat_beq : ℕ → ℕ → Bool
nat_beq a b = elim (compare a b) [ Ordering.eq ↦ true | _ ↦ false ]

infix 1 if◌then◌else◌
abbrev pub if◌then◌else◌ {ℓ} : {A : Type ℓ} → Bool → A → A → A
if true then x else y = x
if false then x else y = y

pub nat_beq_iff : (a b : ℕ) → (nat_beq a b ≡ true) ↔ (a ≡ b)
nat_beq_iff a b = ground arith

-- To split on a computed value and keep the equation.
pub Bool-cases : (b : Bool) → (b ≡ true) ⊎ (b ≡ false)
Bool-cases true = inl refl
Bool-cases false = inr refl

pub Option-cases {ℓ} : {A : Type ℓ} (o : Option A) → (o ≡ none) ⊎ ((a : A) × (o ≡ some a))
Option-cases none = inl refl
Option-cases (some a) = inr (a, refl)

-- Go's `==` on a comparable type.
pub record Eq {ℓ} (A : Type ℓ) : Type ℓ where
  pub equal : A → A → Bool
  pub equal_iff : (a b : A) → (equal a b ≡ true) ↔ (a ≡ b)

instance abbrev pub string_eq : Eq String
string_eq = record { equal_iff = eq_iff; equal = str_eq }

instance abbrev pub nat_eq : Eq ℕ
nat_eq = record { equal_iff = nat_beq_iff; equal = nat_beq }

infix 50 ◌==◌
abbrev pub ◌==◌ {ℓ} : {T : Type ℓ} ⦃eq : Eq T⦄ → T → T → Bool
◌==◌ ⦃eq⦄ x y = eq.equal x y

pub eq_self {ℓ} : {A : Type ℓ} ⦃e : Eq A⦄ (a : A) → (a == a) ≡ true
eq_self ⦃e⦄ a = (e.equal_iff a a).1 refl

abbrev pub is_some {ℓ} : {A : Type ℓ} → Option A → Bool
is_some none = false
is_some (some a) = true

-- The first of two options that holds a value.
abbrev pub or_else {ℓ} : {A : Type ℓ} → Option A → Option A → Option A
or_else none o = o
or_else (some a) o = some a

-- A text that equals one literal differs from another.
pub eq_other {ℓ} :
    {A : Type ℓ} ⦃e : Eq A⦄ (a b c : A) → (b == c) ≡ false → (a == b) ≡ true → (a == c) ≡ false
eq_other ⦃e⦄ a b c h p = rw ((e.equal_iff a b).0 p) h
