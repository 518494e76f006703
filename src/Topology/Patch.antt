-- ===== src/Topology/Patch.antt =====
-- Applying the upserts and removals that lead from one map to another.
use pulsebox.Base.{
  String, Bool, true, not, List, [], ◌∷◌, ◌≡◌, refl, arith, Option, none, some, ◌==◌, if◌then◌else◌,
  string_eq, eq_iff, elem, or_else, is_some, ◌&&◌, ap,
}
use pulsebox.Base.Dict.{
  Dict, lookup, put, delete, Distinct, lookup-put, lookup-delete, put-Distinct,
}
use pulsebox.Topology.Index.{upsert_all, index_by, remove_all, is_changed, upserts, removed}

pub lookup-remove_all :
    {V : Type 0} (j : String) (ks : List String) (m : Dict String V)
    → lookup j (remove_all ks m) ≡ (if elem j ks then none else lookup j m)
unfolding remove_all
lookup-remove_all j [] m = refl
lookup-remove_all j (k ∷ ks) m =
    ground (arith, lookup-remove_all j ks (delete k m), lookup-delete k j m)

-- A key is removed exactly if the old map has it and the new one lacks it.
pub elem-removed :
    {V : Type 0} (j : String) (old new : Dict String V)
    → elem j (removed old new) ≡ (is_some (lookup j old) && not (is_some (lookup j new)))
unfolding removed lookup
elem-removed j [] new = refl
elem-removed j ((k, o) ∷ old) new = ground (
  arith,
  elem-removed j old new,
  λ (e : (k == j) ≡ true). ap (λ z. is_some (lookup z new)) ((eq_iff k j).0 e),
)

-- The entry that is sent for an ID.
abbrev pub sent : {V : Type 0} → (V → V → Bool) → Option V → Option V → Option V
sent same old none = none
sent same old (some n) = if is_changed same old n then some n else none

module _ {V : Type 0} (id : V → String) where
  -- The last value with an ID.
  unfoldable pub find_last : String → List V → Option V
  find_last j [] = none
  find_last j (x ∷ xs) = or_else (find_last j xs) (if id x == j then some x else none)

  -- Each value stands under its own ID.
  abbrev pub Keyed : Dict String V → Type 0
  Keyed [] = Unit {0}
  Keyed ((k, v) ∷ m) = (k ≡ id v) × Keyed m

  pub lookup-upsert_all :
      (j : String) (xs : List V) (m : Dict String V)
      → lookup j (upsert_all id xs m) ≡ or_else (find_last j xs) (lookup j m)
  unfolding upsert_all find_last
  lookup-upsert_all j [] m = refl
  lookup-upsert_all j (x ∷ xs) m =
      ground (arith, lookup-upsert_all j xs (put (id x) x m), lookup-put (id x) j x m)

  put-Keyed : (v : V) (m : Dict String V) → Keyed m → Keyed (put (id v) v m)
  unfolding put
  put-Keyed v [] h = (refl, tt)
  put-Keyed v ((k, w) ∷ m) h = ground (arith, put-Keyed v m h.1)

  pub upsert_all-Distinct :
      (xs : List V) (m : Dict String V) → Distinct m → Distinct (upsert_all id xs m)
  unfolding upsert_all
  upsert_all-Distinct [] m d = d
  upsert_all-Distinct (x ∷ xs) m d =
      upsert_all-Distinct xs (put (id x) x m) (put-Distinct (id x) x m d)

  pub upsert_all-Keyed : (xs : List V) (m : Dict String V) → Keyed m → Keyed (upsert_all id xs m)
  unfolding upsert_all
  upsert_all-Keyed [] m d = d
  upsert_all-Keyed (x ∷ xs) m d = upsert_all-Keyed xs (put (id x) x m) (put-Keyed x m d)

  pub index_by-Distinct : (xs : List V) → Distinct (index_by id xs)
  unfolding index_by
  index_by-Distinct xs = upsert_all-Distinct xs [] tt

  pub index_by-Keyed : (xs : List V) → Keyed (index_by id xs)
  unfolding index_by
  index_by-Keyed xs = upsert_all-Keyed xs [] tt

  module _ (same : V → V → Bool) where
    pub find_last-upserts :
        (j : String) (old new : Dict String V)
        → Distinct new
        → Keyed new
        → find_last j (upserts same old new) ≡ sent same (lookup j old) (lookup j new)
    unfolding find_last upserts lookup
    find_last-upserts j old [] d h = refl
    find_last-upserts j old ((k, n) ∷ new) d h = ground (
      arith,
      find_last-upserts j old new d.1 h.1,
      ap (λ z. z == j) h.0,
      λ (e : (k == j) ≡ true). ap (λ z. lookup z old) ((eq_iff k j).0 e),
      λ (e : (k == j) ≡ true). ap (λ z. lookup z new) ((eq_iff k j).0 e),
    )

    -- The value under an ID once the upserts and the removals have been applied to a map.
    pub lookup-patched :
        (j : String) (m old new : Dict String V)
        → Distinct new
        → Keyed new
        → lookup j (remove_all (removed old new) (upsert_all id (upserts same old new) m)) ≡ (
            if is_some (lookup j old) && not (is_some (lookup j new))
            then none
            else or_else (sent same (lookup j old) (lookup j new)) (lookup j m))
    lookup-patched j m old new d h = rw (
      lookup-remove_all,
      elem-removed j old new,
      lookup-upsert_all j (upserts same old new) m,
      find_last-upserts j old new d h,
    )
