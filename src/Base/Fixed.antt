-- ===== src/Base/Fixed.antt =====
-- A number type that has the laws of `FloatLaws`: thousandths, rounded down, none below zero.
use Prim.Native.Nat.{ℕ, suc, ◌+◌, ◌*◌, ◌/◌, ◌%◌, ◌^◌, ◌≤◌}
use mathlib.Core.Path.{◌≡◌}
use mathlib.Core.List.{[], ◌∷◌}
use native.Mathlib.Nat.{le-div_iff_mul-le}
use native.Mathlib.Omega.{arith}
use pulsebox.Base.Tests.{ltb, leb, nat_beq}
use pulsebox.Base.Int.{pos_part}
use pulsebox.Base.Text.{show_nat, concat}
use pulsebox.Base.Float.{Float, FloatLaws}

instance abbrev pub fixed : Float ℕ
fixed = record {
  hundredths = λ n. n * 10;
  of_int = λ z. pos_part z * 1000;
  add = λ x y. x + y;
  mul = λ x y. x * y / 1000;
  div = λ x y. x * 1000 / y;
  pow_half = λ x. 1000 / 2 ^ (x / 1000);
  le = leb;
  lt = ltb;
  eq = nat_beq;
  show1 = λ x. concat (show_nat (x / 1000) ∷ "." ∷ show_nat (x / 100 % 10) ∷ []);
}

div_mono : (x y n : ℕ) → x ≤ y → x * 1000 / (suc n * 1000) ≤ y * 1000 / (suc n * 1000)
div_mono x y n h = grind arith

div_self : (n : ℕ) → suc n * 1000 * 1000 / (suc n * 1000) ≡ 1000
div_self n = grind arith

half_le : (n : ℕ) → 1000 / n ≤ 1000
half_le n = grind arith

mul_le : (x p : ℕ) → p ≤ 1000 → x * p / 1000 ≤ x
mul_le x p h = grind arith

le-ratio : (c a b : ℕ) → c * suc b ≤ 100 * a → c * 10 ≤ a * 1000 * 1000 / (suc b * 1000)
le-ratio c a b h = (le-div_iff_mul-le {k = suc b * 1000} (omega arith)).1 (omega arith)

pub fixed-FloatLaws : FloatLaws fixed
fixed-FloatLaws = record {
  le_trans = λ x y z p q. ground arith;
  le-hundredths = λ a b p q. ground arith;
  le_self = λ x y p. ground arith;
  lt-le = λ x y p q. ground arith;
  eq_refl = λ x p. ground arith;
  eq_trans = λ x y z p q. ground arith;
  of_int_mono = λ a b h. ground arith;
  of_int_zero = ground arith;
  add_mono = λ x x' y y' p q r s. ground arith;
  add_zero = λ x p. ground arith;
  add_one = λ n p. ground arith;
  div_mono = λ x y n p q. ground (arith, div_mono x y n);
  div_nonneg = λ x n p. ground arith;
  pow_half_unit = λ x p. ground (arith, half_le (2 ^ (x / 1000)));
  mul_unit = λ x p n b q r s t. ground (arith, mul_le x p);
  le-ratio = λ c a b p q h. ground (arith, le-ratio c a b h);
  div_self = λ n. ground (arith, div_self n);
}
