-- ===== src/Base/Float.antt =====
-- float64. Its arithmetic is the processor's, so the type and the operations that the source uses
-- are an interface, and what is known of them (IEEE 754, round to nearest) is a record of laws.
use Prim.Native.Nat.{ℕ, suc, ◌*◌, ◌<◌, ◌≤◌}
use Prim.Native.String.{String}
use mathlib.Core.Path.{◌≡◌}
use mathlib.Core.Bool.{Bool, true, not}
use pulsebox.Base.Tests.{leb}
use pulsebox.Base.Int.{ℤ, pos, ◌≤ℤ◌}

pub record Float (F : Type 0) : Type 0 where
  -- A literal, in hundredths: every literal of the source is one, 0.7 is `hundredths 70`.
  pub hundredths : ℕ → F
  -- float64(n) of an integer.
  pub of_int : ℤ → F
  pub add : F → F → F
  pub mul : F → F → F
  pub div : F → F → F
  -- math.Pow(0.5, x)
  pub pow_half : F → F
  -- <=, < and ==, which are false on NaN.
  pub le : F → F → Bool
  pub lt : F → F → Bool
  pub eq : F → F → Bool
  -- fmt.Sprintf("%.1f", x)
  pub show1 : F → String

-- Laws of float64 on non-negative numbers. Rounding keeps orders, whole numbers up to 2^53 are
-- exact, and so is a number divided by itself. `le x x` says that `x` is not NaN.
pub record FloatLaws {F : Type 0} (fl : Float F) : Type 0 where
  pub le_trans : (x y z : F) → fl.le x y ≡ true → fl.le y z ≡ true → fl.le x z ≡ true
  pub le_self : (x y : F) → fl.le x y ≡ true → (fl.le x x ≡ true) × (fl.le y y ≡ true)
  pub le-hundredths :
      (a b : ℕ) → a ≤ 10000 → b ≤ 10000 → fl.le (fl.hundredths a) (fl.hundredths b) ≡ leb a b
  pub lt-le : (x y : F) → fl.le x x ≡ true → fl.le y y ≡ true → fl.lt x y ≡ not (fl.le y x)
  pub eq_refl : (x : F) → fl.le x x ≡ true → fl.eq x x ≡ true
  pub eq_trans : (x y z : F) → fl.eq x y ≡ true → fl.eq y z ≡ true → fl.eq x z ≡ true
  pub of_int_mono : (a b : ℤ) → a ≤ℤ b → fl.le (fl.of_int a) (fl.of_int b) ≡ true
  pub of_int_zero :
      (fl.le (fl.hundredths 0) (fl.of_int (pos 0)) ≡ true)
      × (fl.le (fl.of_int (pos 0)) (fl.hundredths 0) ≡ true)
  pub add_mono :
      (x x' y y' : F)
      → fl.le (fl.hundredths 0) x ≡ true
      → fl.le x x' ≡ true
      → fl.le (fl.hundredths 0) y ≡ true
      → fl.le y y' ≡ true
      → fl.le (fl.add x y) (fl.add x' y') ≡ true
  pub add_zero : (x : F) → fl.le x x ≡ true → fl.le x (fl.add x (fl.hundredths 0)) ≡ true
  pub add_one :
      (n : ℕ)
      → n < 9007199254740992
      → (fl.le (fl.add (fl.of_int (pos n)) (fl.hundredths 100)) (fl.of_int (pos (suc n))) ≡ true)
        × (fl.le (fl.of_int (pos (suc n))) (fl.add (fl.of_int (pos n)) (fl.hundredths 100)) ≡ true)
  pub div_mono :
      (x y : F) (n : ℕ)
      → fl.le (fl.hundredths 0) x ≡ true
      → fl.le x y ≡ true
      → fl.le (fl.div x (fl.of_int (pos (suc n)))) (fl.div y (fl.of_int (pos (suc n)))) ≡ true
  pub div_nonneg :
      (x : F) (n : ℕ)
      → fl.le (fl.hundredths 0) x ≡ true
      → fl.le (fl.hundredths 0) (fl.div x (fl.of_int (pos (suc n)))) ≡ true
  pub div_self :
      (n : ℕ)
      → let q = fl.div (fl.of_int (pos (suc n))) (fl.of_int (pos (suc n))) in
        (fl.le q (fl.hundredths 100) ≡ true) × (fl.le (fl.hundredths 100) q ≡ true)
  -- 2^-x, and a finite number (up to 10^21, which is far from the largest) times one from 0 to 1.
  pub pow_half_unit :
      (x : F)
      → fl.lt (fl.hundredths 0) x ≡ true
      → (fl.le (fl.hundredths 0) (fl.pow_half x) ≡ true)
        × (fl.le (fl.pow_half x) (fl.hundredths 100) ≡ true)
  pub mul_unit :
      (x p : F) (n : ℕ)
      → n < 1000000000000000000000
      → fl.le (fl.hundredths 0) x ≡ true
      → fl.le x (fl.of_int (pos n)) ≡ true
      → fl.le (fl.hundredths 0) p ≡ true
      → fl.le p (fl.hundredths 100) ≡ true
      → (fl.le (fl.hundredths 0) (fl.mul x p) ≡ true) × (fl.le (fl.mul x p) x ≡ true)
  -- Where a / b is at least c hundredths, so is the rounded quotient.
  pub le-ratio :
      (c a b : ℕ)
      → a < 9007199254740992
      → suc b < 9007199254740992
      → c * suc b ≤ 100 * a
      → fl.le (fl.hundredths c) (fl.div (fl.of_int (pos a)) (fl.of_int (pos (suc b)))) ≡ true

module _ {F : Type 0} ⦃fl : Float F⦄ where
  abbrev pub lit : ℕ → F
  lit = fl.hundredths

  -- `a >= b`
  abbrev pub at_least : F → F → Bool
  at_least a b = fl.le b a

  -- A score: from 0 to 1, and so not NaN.
  abbrev pub InUnit : F → Type 0
  InUnit x = (fl.le (fl.hundredths 0) x ≡ true) × (fl.le x (fl.hundredths 100) ≡ true)
