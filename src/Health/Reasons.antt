-- ===== src/Health/Reasons.antt =====
-- health.go: `NormalizeReasons` and `topReasons`.
pub mod Normalized
pub mod Order
use pulsebox.Base.{
  ℕ, suc, String, Bool, true, false, ◌||◌, not, List, [], ◌∷◌, ◌++◌, ◌==◌, if◌then◌else◌, ltb, leb,
  nat_beq, string_eq, elem, concat, show_nat, trim_space, less_text,
}
use pulsebox.Base.Dict.{Dict}
use pulsebox.Base.Sort.{sort}

-- The loop of `NormalizeReasons`; `seen` holds the keys of the map.
unfoldable pub normalize_loop : List String → List String → List String → List String
normalize_loop [] seen out = out
normalize_loop (r ∷ rest) seen out =
    let t = trim_space r in
    elim (t == "" || elem t seen) [
      | true ↦ normalize_loop rest seen out
      | false ↦ normalize_loop rest (t ∷ seen) (out ++ t ∷ [])
    ]

unfoldable pub normalize_reasons : List String → List String
unfolding normalize_loop
normalize_reasons rs = normalize_loop rs [] []

-- The comparison that `topReasons` sorts by.
unfoldable pub less_count : String × ℕ → String × ℕ → Bool
less_count (k, v) (j, w) = if not (nat_beq v w) then ltb w v else less_text k j

unfoldable pub format_top : ℕ → ℕ → List (String × ℕ) → List String
format_top i limit [] = []
format_top i limit ((k, v) ∷ rest) =
    if leb limit i
    then []
    else (if ltb 1 v then concat (k ∷ " (x" ∷ show_nat v ∷ ")" ∷ []) else k)
      ∷ format_top (suc i) limit rest

unfoldable pub top_reasons : Dict String ℕ → ℕ → List String
unfolding format_top sort less_count
top_reasons counts limit = format_top 0 limit (sort less_count counts)
