-- ===== src/Base/Slash.antt =====
-- A text up to its first slash, and what follows it.
use Prim.Native.Char.{Char, code}
use Prim.Native.String.append as append_lem
use Prim.Native.String.{String, ◌++◌ as join2}
use mathlib.Core.Path.{◌≡◌, refl, ap, ◌∙◌}
use mathlib.Core.Bool.{Bool, true, false, ◌&&◌, not}
use native.Mathlib.Omega.{arith}
use pulsebox.Base.Tests.{nat_beq, if◌then◌else◌}

abbrev slash : Char
slash = "/"

abbrev is_slash : Char → Bool
is_slash c = nat_beq (code c) 47

unfoldable pub is_plain : String → Bool
is_plain String.[] = true
is_plain (String.◌∷◌ c s) = not (is_slash c) && is_plain s

unfoldable pub before : String → String
before String.[] = ""
before (String.◌∷◌ c s) = let rest = before s in if is_slash c then "" else String.◌∷◌ c rest

unfoldable pub after : String → String
after String.[] = ""
after (String.◌∷◌ c s) = let rest = after s in if is_slash c then s else rest

slash-cons : (t : String) → join2 "/" t ≡ String.◌∷◌ slash t
slash-cons t = append_lem.cons slash "" t ∙ ap (λ z. String.◌∷◌ slash z) (append_lem.nil t)

pub before-join : (a b : String) → is_plain a ≡ true → before (join2 a (join2 "/" b)) ≡ a
unfolding before is_plain
before-join String.[] b h = rw (append_lem.nil (join2 "/" b), slash-cons b) refl
before-join (String.◌∷◌ c s) b h =
    rw (append_lem.cons c s (join2 "/" b)) (ground (arith, before-join s b))

pub after-join : (a b : String) → is_plain a ≡ true → after (join2 a (join2 "/" b)) ≡ b
unfolding after is_plain
after-join String.[] b h = rw (append_lem.nil (join2 "/" b), slash-cons b) refl
after-join (String.◌∷◌ c s) b h =
    rw (append_lem.cons c s (join2 "/" b)) (ground (arith, after-join s b))

pub is_plain-join : (a b : String) → is_plain (join2 a (join2 "/" b)) ≡ false
unfolding is_plain
is_plain-join String.[] b = rw (append_lem.nil (join2 "/" b), slash-cons b) refl
is_plain-join (String.◌∷◌ c s) b =
    rw (append_lem.cons c s (join2 "/" b)) (ground (arith, is_plain-join s b))
