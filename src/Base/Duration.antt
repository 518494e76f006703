-- ===== src/Base/Duration.antt =====
-- What the source takes of the package time: the text of a duration, and its rounding.
use Prim.Native.Nat.{ℕ, zero, suc, ◌+◌, ◌-◌, ◌/◌, ◌%◌}
use Prim.Native.String.{String, ◌++◌ as join2}
use mathlib.Core.Path.{◌≡◌, refl}
use mathlib.Core.Bool.{Bool, false, ◌||◌, not}
use mathlib.Core.List.{[], ◌∷◌}
use pulsebox.Base.Tests.{ltb, nat_beq, if◌then◌else◌}
use pulsebox.Base.Int.{pos, negsuc, sub_ℕ, Duration, max_duration, min_duration}
use pulsebox.Base.Text.{concat, digit, show_nat, show_int}

-- The fraction v / 10^digits with its point, without trailing zeros: time's fmtFrac.
show_fraction : ℕ → ℕ → Bool → String → String
show_fraction zero v started rest = if started then join2 "." rest else rest
show_fraction (suc digits) v started rest =
    let d = v % 10 in
    let started' = started || not (nat_beq d 0) in
    show_fraction digits (v / 10) started' (if started' then join2 (digit d) rest else rest)

-- The hours and minutes of a number of seconds, in front of the seconds' own text.
show_clock : ℕ → String → String
unfolding show_nat
show_clock secs tail =
    let minutes = secs / 60 in
    let with_secs = join2 (show_nat (secs % 60)) tail in
    let with_minutes = concat (show_nat (minutes % 60) ∷ "m" ∷ with_secs ∷ []) in
    if nat_beq minutes 0
    then with_secs
    else if nat_beq (minutes / 60) 0
    then with_minutes
    else concat (show_nat (minutes / 60) ∷ "h" ∷ with_minutes ∷ [])

show_magnitude : ℕ → String
unfolding show_clock show_fraction
show_magnitude u =
    if nat_beq u 0
    then "0s"
    else if ltb u 1000
    then join2 (show_nat u) "ns"
    else if ltb u 1000000
    then join2 (show_nat (u / 1000)) (show_fraction 3 (u % 1000) false "µs")
    else if ltb u 1000000000
    then join2 (show_nat (u / 1000000)) (show_fraction 6 (u % 1000000) false "ms")
    else show_clock (u / 1000000000) (show_fraction 9 (u % 1000000000) false "s")

-- `d.String()`
unfoldable pub show_duration : Duration → String
unfolding show_magnitude
show_duration (pos n) = show_magnitude n
show_duration (negsuc n) = join2 "-" (show_magnitude (suc n))

-- `d.Round(m)` at a positive m: to the nearest multiple, halves away from zero, saturated.
round_magnitude : ℕ → ℕ → ℕ
round_magnitude u m = let r = u % m in if ltb (r + r) m then u - r else u + m - r

unfoldable pub round_duration : Duration → ℕ → Duration
unfolding round_magnitude
round_duration (pos n) m =
    let v = round_magnitude n m in if ltb 9223372036854775807 v then max_duration else pos v
round_duration (negsuc n) m =
    let v = round_magnitude (suc n) m in
    if ltb 9223372036854775808 v then min_duration else sub_ℕ 0 v

show_samples :
    (show_duration (pos 5400000000000) ≡ "1h30m0s")
    × (show_duration (pos 1500000000) ≡ "1.5s")
    × (show_duration (round_duration (negsuc 1499999999) 1000000000) ≡ "-2s")
    × (show_int (negsuc 1041) ≡ "-1042")
unfolding show_duration round_duration show_int
show_samples = (refl, refl, refl, refl)
