-- ===== src/Topology/Walks.antt =====
-- topology.go: `DiffAgainst` walks Go maps, whose order is not fixed. A client that applies the same
-- upserts and removals in another order.
use mathlib.Core.List.{Permᴰ}
use pulsebox.Base.{
  String, Bool, List, [], ◌∷◌, ◌≡◌, refl, arith, none, string_eq, eq_iff, elem, ◌∙◌, sym, ap,
}
use pulsebox.Base.Dict.{Dict, lookup, Distinct}
use pulsebox.Topology.Index.{upsert_all, remove_all, upserts}
use pulsebox.Topology.Patch.{
  Keyed, find_last, find_last-upserts, lookup-remove_all, lookup-upsert_all,
}

elem-eq_of_perm : (j : String) {xs ys : List String} → Permᴰ xs ys → elem j xs ≡ elem j ys
elem-eq_of_perm j Permᴰ.nil = refl
elem-eq_of_perm j (Permᴰ.cons e p) = cc (e, elem-eq_of_perm j p)
elem-eq_of_perm j (Permᴰ.swap e f) = rw (e, f) (ground arith)
elem-eq_of_perm j (Permᴰ.trans p q) = elem-eq_of_perm j p ∙ elem-eq_of_perm j q

module _ {V : Type 0} (id : V → String) where
  -- No two of the values have the same ID.
  abbrev pub IdsOnce : List V → Type 0
  IdsOnce [] = Unit {0}
  IdsOnce (x ∷ xs) = (find_last id (id x) xs ≡ none) × IdsOnce xs

  -- The two values in front may be exchanged.
  find_last-swap :
      (j : String) (a b : V) (xs : List V)
      → IdsOnce (a ∷ b ∷ xs)
      → find_last id j (a ∷ b ∷ xs) ≡ find_last id j (b ∷ a ∷ xs)
  unfolding find_last
  find_last-swap j a b xs h = ground (arith, eq_iff (id a) j, eq_iff (id b) j, eq_iff (id b) (id a))

  swap-IdsOnce : (a b : V) (xs : List V) → IdsOnce (a ∷ b ∷ xs) → IdsOnce (b ∷ a ∷ xs)
  unfolding find_last
  swap-IdsOnce a b xs h = ground (arith, eq_iff (id a) (id b), eq_iff (id b) (id a))

  exchanged :
      {a b c d : V} (xs : List V)
      → a ≡ d
      → b ≡ c
      → IdsOnce (a ∷ b ∷ xs)
      → IdsOnce (c ∷ d ∷ xs)
        × ((j : String) → find_last id j (a ∷ b ∷ xs) ≡ find_last id j (c ∷ d ∷ xs))
  exchanged {a} {b} xs e f h = rw (← e, ← f) (swap-IdsOnce a b xs h, λ j. find_last-swap j a b xs h)

  -- Values with distinct IDs in another order: the IDs stay distinct, and the value of an ID stays.
  IdsOnce-of_perm :
      {xs ys : List V}
      → Permᴰ xs ys
      → IdsOnce xs
      → IdsOnce ys × ((j : String) → find_last id j xs ≡ find_last id j ys)
  unfolding find_last
  IdsOnce-of_perm Permᴰ.nil h = (tt, λ j. refl)
  IdsOnce-of_perm (Permᴰ.cons {a} {b} e p) h =
      let t = IdsOnce-of_perm p h.1 in ((sym (t.1 (id b)) ∙ rw (← e) h.0, t.0), λ j. cc (e, t.1 j))
  IdsOnce-of_perm (Permᴰ.swap {l} e f) h = exchanged l e f h
  IdsOnce-of_perm (Permᴰ.trans p q) h =
      let t = IdsOnce-of_perm p h in let u = IdsOnce-of_perm q t.0 in (u.0, λ j. t.1 j ∙ u.1 j)

  pub upserts-IdsOnce :
      (same : V → V → Bool) (old new : Dict String V)
      → Distinct new
      → Keyed id new
      → IdsOnce (upserts same old new)
  unfolding upserts
  upserts-IdsOnce same old [] d h = tt
  upserts-IdsOnce same old ((k, n) ∷ new) d h = ground (
    arith,
    upserts-IdsOnce same old new d.1 h.1,
    find_last-upserts id same (id n) old new d.1 h.1,
    ap (λ z. lookup z new) h.0,
  )

  -- What a client looks up does not depend on the order of the upserts and of the removals.
  pub lookup-patched_of_perm :
      (j : String) (m : Dict String V) {us vs : List V} {rs ss : List String}
      → Permᴰ us vs
      → Permᴰ rs ss
      → IdsOnce us
      → lookup j (remove_all ss (upsert_all id vs m))
        ≡ lookup j (remove_all rs (upsert_all id us m))
  lookup-patched_of_perm j m {us} {vs} {rs} {ss} p q h =
      rw
        (
          lookup-remove_all j ss,
          lookup-remove_all j rs,
          lookup-upsert_all id j vs m,
          lookup-upsert_all id j us m,
          ← elem-eq_of_perm j q,
          ← (IdsOnce-of_perm p h).1 j,
        )
        refl
