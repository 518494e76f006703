-- ===== src/Base/Text.antt =====
-- Texts: their order, and what the source takes of the packages strings, fmt and time.
use Prim.Native.Char.{Char, code}
use Prim.Native.Nat.{ℕ, zero, suc, ◌/◌, ◌%◌, ◌<◌, Ordering}
use Prim.Native.String.compare as compare_lem
use Prim.Native.String.{String, ◌++◌ as join2, compare}
use mathlib.Core.Path.{◌≡◌, refl}
use mathlib.Core.Bool.{Bool, true, false, ◌&&◌, ◌||◌}
use mathlib.Core.List.{List, [], ◌∷◌}
use native.Mathlib.Omega.{arith}
use text.Mathlib.TextEquality.{Char-path}
use pulsebox.Base.Tests.{ltb, leb, nat_beq, if◌then◌else◌}
use pulsebox.Base.Int.{ℤ, pos, negsuc}
use pulsebox.Base.Sort.{StrictOrder}

-- `s < t` on Go strings: by bytes, which is the order of the code points.
unfoldable pub less_text : String → String → Bool
less_text s t = elim (compare s t) [ Ordering.lt ↦ true | _ ↦ false ]

-- The parts of a text one after the other, as fmt.Sprintf and `+` put them.
abbrev pub concat : List String → String
concat [] = ""
concat (s ∷ rest) = join2 s (concat rest)

abbrev pub digit : ℕ → String
digit zero = "0"
digit (suc zero) = "1"
digit (suc (suc zero)) = "2"
digit (suc (suc (suc zero))) = "3"
digit (suc (suc (suc (suc zero)))) = "4"
digit (suc (suc (suc (suc (suc zero))))) = "5"
digit (suc (suc (suc (suc (suc (suc zero)))))) = "6"
digit (suc (suc (suc (suc (suc (suc (suc zero))))))) = "7"
digit (suc (suc (suc (suc (suc (suc (suc (suc zero)))))))) = "8"
digit _ = "9"

-- The digits of a number in front of a text; the fuel bounds their number.
show_digits : ℕ → ℕ → String → String
show_digits zero n rest = rest
show_digits (suc f) n rest =
    let here = join2 (digit (n % 10)) rest in
    let more = show_digits f (n / 10) here in if ltb n 10 then here else more

-- More fuel than the number changes nothing.
show_digits_fuel :
    (f g n : ℕ) (rest : String) → n < f → n < g → show_digits f n rest ≡ show_digits g n rest
unfolding show_digits
show_digits_fuel zero g n rest h k = elim h [ ]
show_digits_fuel (suc f) zero n rest h k = elim k [ ]
show_digits_fuel (suc f) (suc g) n rest h k =
    ground (arith, show_digits_fuel f g (n / 10) (join2 (digit (n % 10)) rest))

-- %d of a number that is not negative, and of any.
unfoldable pub show_nat : ℕ → String
unfolding show_digits
show_nat n = show_digits (suc n) n ""

unfoldable pub show_int : ℤ → String
unfolding show_nat
show_int (pos n) = show_nat n
show_int (negsuc n) = join2 "-" (show_nat (suc n))

-- strings.TrimSpace, on ASCII white space and the others of Unicode's White_Space.
is_space : Char → Bool
is_space c =
    let n = code c in
    (leb 9 n && leb n 13)
    || nat_beq n 32
    || nat_beq n 133
    || nat_beq n 160
    || nat_beq n 5760
    || (leb 8192 n && leb n 8202)
    || nat_beq n 8232
    || nat_beq n 8233
    || nat_beq n 8239
    || nat_beq n 8287
    || nat_beq n 12288

trim_left : String → String
unfolding is_space
trim_left String.[] = ""
trim_left (String.◌∷◌ c s) = if is_space c then trim_left s else String.◌∷◌ c s

cons_unless_blank : Char → String → String
unfolding is_space
cons_unless_blank c String.[] = if is_space c then "" else String.◌∷◌ c ""
cons_unless_blank c (String.◌∷◌ d s) = String.◌∷◌ c (String.◌∷◌ d s)

trim_right : String → String
unfolding cons_unless_blank
trim_right String.[] = ""
trim_right (String.◌∷◌ c s) = cons_unless_blank c (trim_right s)

unfoldable pub trim_space : String → String
unfolding trim_left trim_right
trim_space s = trim_right (trim_left s)

less-nil : less_text String.[] String.[] ≡ false
unfolding less_text
less-nil = refl

module _ (c d : Char) (s t : String) where
  nil-less : less_text String.[] (String.◌∷◌ d t) ≡ true
  unfolding less_text
  nil-less = rw (compare_lem.nil-cons, less_text)

  not-less-nil : less_text (String.◌∷◌ c s) String.[] ≡ false
  unfolding less_text
  not-less-nil = rw (compare_lem.cons-nil, less_text)

  less-cons : less_text (String.◌∷◌ c s) (String.◌∷◌ d t) ≡ (
      if ltb (code c) (code d)
      then true
      else if nat_beq (code c) (code d)
      then less_text s t
      else false)
  unfolding less_text
  less-cons = rw (compare_lem.cons-cons, less_text) (ground arith)

less_text-asym : (s t : String) → less_text s t ≡ true → less_text t s ≡ false
less_text-asym String.[] String.[] h = less-nil
less_text-asym String.[] (String.◌∷◌ d t) h = not-less-nil d d t t
less_text-asym (String.◌∷◌ c s) String.[] h = cc (not-less-nil c c s s)
less_text-asym (String.◌∷◌ c s) (String.◌∷◌ d t) h =
    ground (arith, less-cons c d s t, less-cons d c t s, less_text-asym s t)

less_text_trans :
    (s t u : String) → less_text s t ≡ true → less_text t u ≡ true → less_text s u ≡ true
less_text_trans s String.[] String.[] h k = cc
less_text_trans String.[] t (String.◌∷◌ e u) h k = nil-less e e u u
less_text_trans (String.◌∷◌ c s) String.[] (String.◌∷◌ e u) h k = cc (not-less-nil c c s s)
less_text_trans s (String.◌∷◌ d t) String.[] h k = cc (not-less-nil d d t t)
less_text_trans (String.◌∷◌ c s) (String.◌∷◌ d t) (String.◌∷◌ e u) h k =
    ground (arith, less-cons c d s t, less-cons d e t u, less-cons c e s u, less_text_trans s t u)

less_text-tri : (s t : String) → less_text s t ≡ false → less_text t s ≡ false → s ≡ t
less_text-tri String.[] String.[] h k = refl
less_text-tri String.[] (String.◌∷◌ d t) h k = cc (nil-less d d t t)
less_text-tri (String.◌∷◌ c s) String.[] h k = cc (nil-less c c s s)
less_text-tri (String.◌∷◌ c s) (String.◌∷◌ d t) h k = ground (
  arith,
  less-cons c d s t,
  less-cons d c t s,
  less_text-tri s t,
  λ (e : code c ≡ code d). Char-path c d e,
)

pub less_text-StrictOrder : StrictOrder less_text
less_text-StrictOrder = record {
  asym = less_text-asym;
  trans = less_text_trans;
  tri = less_text-tri;
}
