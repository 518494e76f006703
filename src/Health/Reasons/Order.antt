-- ===== src/Health/Reasons/Order.antt =====
-- health.go: `topReasons`, and the order in which Go walks the map.
use mathlib.Core.List.{Perm}
use text.Mathlib.TextEquality.{IsScalar-prop}
use pulsebox.Base.{ℕ, suc, ◌+◌, ◌≤◌, String, List, [], ◌∷◌, ◌≡◌, ap, arith, length}
use pulsebox.Base.Sort.{StrictOrder, sort, sort-eq_of_perm}
use pulsebox.Base.{less_text-StrictOrder}
use pulsebox.Health.Reasons.{less_count, format_top, top_reasons}

less_count-StrictOrder : StrictOrder less_count
unfolding less_count
less_count-StrictOrder = record {
  asym = λ a b h. ground (arith, less_text-StrictOrder.asym a.0 b.0);
  trans = λ a b c h k. ground (arith, less_text-StrictOrder.trans a.0 b.0 c.0);
  tri = λ a b h k. ground (arith, less_text-StrictOrder.tri a.0 b.0);
}

counts-set : IsSet (List (String × ℕ))
counts-set = hlevel IsScalar-prop

-- Two orders of the same counted reasons give the same top reasons: the order in which Go walks the
-- map does not show.
pub top_reasons-eq_of_perm :
    {xs ys : List (String × ℕ)} (limit : ℕ)
    → Perm xs ys
    → top_reasons xs limit ≡ top_reasons ys limit
unfolding top_reasons
top_reasons-eq_of_perm limit p =
    ap (format_top 0 limit) (sort-eq_of_perm less_count less_count-StrictOrder counts-set p)

length-format_top :
    (i limit : ℕ) (es : List (String × ℕ)) → i ≤ limit → i + length (format_top i limit es) ≤ limit
unfolding format_top
length-format_top i limit [] h = omega arith
length-format_top i limit (e ∷ es) h = ground (arith, length-format_top (suc i) limit es)

-- No more than `limit` reasons are listed.
pub length-top_reasons-le :
    (es : List (String × ℕ)) (limit : ℕ) → length (top_reasons es limit) ≤ limit
unfolding top_reasons
length-top_reasons-le es limit = omega (arith, length-format_top 0 limit (sort less_count es))
