-- ===== src/Base/Int.antt =====
-- Go's signed integers: an integer, with the wrap-around of int32 and the saturation of
-- `time.Duration` written out.
use Prim.Native.Nat.{ℕ, suc, ◌+◌, ◌-◌, ◌/◌, ◌%◌, ◌≤◌, ◌<◌}
use mathlib.Core.Path.{◌≡◌}
use mathlib.Core.Bool.{Bool}
use native.Mathlib.Omega.{arith}
use pulsebox.Base.Tests.{ltb, leb, if◌then◌else◌}

-- `negsuc n` is -(n + 1).
pub data ℤ : Type 0 where
  pos : ℕ → ℤ
  negsuc : ℕ → ℤ

abbrev pub pos_part : ℤ → ℕ
pos_part (pos n) = n
pos_part (negsuc n) = 0

abbrev pub neg_part : ℤ → ℕ
neg_part (pos n) = 0
neg_part (negsuc n) = suc n

-- a - b, as an integer.
abbrev pub sub_ℕ : ℕ → ℕ → ℤ
sub_ℕ a b = if leb b a then pos (a - b) else negsuc (b - a - 1)

infixl 65 ◌+ℤ◌ ◌-ℤ◌
infix 50 ◌≤ℤ◌ ◌<ℤ◌
unfoldable pub ◌+ℤ◌ : ℤ → ℤ → ℤ
a +ℤ b = sub_ℕ (pos_part a + pos_part b) (neg_part a + neg_part b)

unfoldable pub ◌-ℤ◌ : ℤ → ℤ → ℤ
a -ℤ b = sub_ℕ (pos_part a + neg_part b) (neg_part a + pos_part b)

abbrev pub ◌≤ℤ◌ : ℤ → ℤ → Type 0
a ≤ℤ b = pos_part a + neg_part b ≤ pos_part b + neg_part a

abbrev pub ◌<ℤ◌ : ℤ → ℤ → Type 0
a <ℤ b = pos_part a + neg_part b < pos_part b + neg_part a

abbrev pub ltb_ℤ : ℤ → ℤ → Bool
ltb_ℤ a b = ltb (pos_part a + neg_part b) (pos_part b + neg_part a)

abbrev pub leb_ℤ : ℤ → ℤ → Bool
leb_ℤ a b = leb (pos_part a + neg_part b) (pos_part b + neg_part a)

-- `a == b`.
abbrev pub eqb_ℤ : ℤ → ℤ → Bool
eqb_ℤ a b = elim (leb_ℤ a b) [ Bool.true ↦ leb_ℤ b a | Bool.false ↦ Bool.false ]

pub eq_of_parts : (a b : ℤ) → pos_part a + neg_part b ≡ pos_part b + neg_part a → a ≡ b
eq_of_parts a b h = ground arith

-- `a / m` and `a % m` for a positive m: Go truncates towards zero.
unfoldable pub quot : ℤ → ℕ → ℤ
quot (pos n) m = pos (n / m)
quot (negsuc n) m = sub_ℕ 0 (suc n / m)

unfoldable pub rem : ℤ → ℕ → ℤ
rem (pos n) m = pos (n % m)
rem (negsuc n) m = sub_ℕ 0 (suc n % m)

-- A value taken modulo 2^32 into -2^31 .. 2^31 - 1, for values between -2^32 and 2^32.
unfoldable pub wrap_int32 : ℤ → ℤ
wrap_int32 z =
    let u = (pos_part z + 4294967296 - neg_part z) % 4294967296 in
    if ltb u 2147483648 then pos u else negsuc (4294967295 - u)

abbrev pub IsInt32 : ℤ → Type 0
IsInt32 z = (pos_part z < 2147483648) × (neg_part z ≤ 2147483648)

-- int32 `a + b` and `a - b`.
unfoldable pub add_int32 : ℤ → ℤ → ℤ
unfolding wrap_int32 ◌+ℤ◌
add_int32 a b = wrap_int32 (a +ℤ b)

unfoldable pub sub_int32 : ℤ → ℤ → ℤ
unfolding wrap_int32 ◌-ℤ◌
sub_int32 a b = wrap_int32 (a -ℤ b)

-- Where the true difference fits, no wrap-around happens.
pub sub_int32_exact :
    (a b : ℤ) → IsInt32 a → IsInt32 b → b ≤ℤ a → pos 0 ≤ℤ b → sub_int32 a b ≡ a -ℤ b
unfolding sub_int32
sub_int32_exact a b ha hb h hp = ground arith

-- `time.Time`: nanoseconds since Go's zero time; `time.Duration`: nanoseconds, an int64.
abbrev pub Time : Type 0
Time = ℤ

abbrev pub Duration : Type 0
Duration = ℤ

abbrev pub max_duration : ℤ
max_duration = pos 9223372036854775807

abbrev pub min_duration : ℤ
min_duration = negsuc 9223372036854775807

-- `t.Sub(u)`: the difference, saturated at the ends of int64.
unfoldable pub sub_time : Time → Time → Duration
unfolding ◌-ℤ◌
sub_time t u =
    let d = t -ℤ u in
    if ltb_ℤ max_duration d then max_duration else if ltb_ℤ d min_duration then min_duration else d
