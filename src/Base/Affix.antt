-- ===== src/Base/Affix.antt =====
-- strings.HasPrefix with TrimPrefix, strings.Join, and strings.Contains on a text in lower case.
use Prim.Native.Char.{Char, code}
use Prim.Native.Nat.{ℕ, ◌+◌}
use Prim.Native.String.{String}
use mathlib.Core.Bool.{Bool, true, false, ◌&&◌, ◌||◌}
use mathlib.Core.List.{List, [], ◌∷◌}
use mathlib.Core.Option.{Option, none, some}
use pulsebox.Base.Tests.{leb, nat_beq, if◌then◌else◌}
use pulsebox.Base.Text.{concat}

-- What follows a prefix, if the text has it.
unfoldable pub strip_prefix : String → String → Option String
strip_prefix String.[] s = some s
strip_prefix (String.◌∷◌ c p) String.[] = none
strip_prefix (String.◌∷◌ c p) (String.◌∷◌ d s) =
    if nat_beq (code c) (code d) then strip_prefix p s else none

unfoldable pub join : String → List String → String
join sep [] = ""
join sep (s ∷ []) = s
join sep (s ∷ t ∷ rest) = concat (s ∷ sep ∷ join sep (t ∷ rest) ∷ [])

-- The code of a letter in lower case, as far as it is in ASCII.
lower : Char → ℕ
lower c = let n = code c in if leb 65 n && leb n 90 then n + 32 else n

starts_lower : String → String → Bool
unfolding lower
starts_lower String.[] s = true
starts_lower (String.◌∷◌ c p) String.[] = false
starts_lower (String.◌∷◌ c p) (String.◌∷◌ d s) = nat_beq (code c) (lower d) && starts_lower p s

-- `strings.Contains(strings.ToLower(s), part)`, for a part in the letters g, p and u, to which no
-- letter outside ASCII is lowered.
unfoldable pub contains_lower : String → String → Bool
unfolding starts_lower
contains_lower part String.[] = starts_lower part String.[]
contains_lower part (String.◌∷◌ c s) = starts_lower part (String.◌∷◌ c s) || contains_lower part s
