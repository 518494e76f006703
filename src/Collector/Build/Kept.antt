-- ===== src/Collector/Build/Kept.antt =====
-- graph.go: the loop over the edges at the end of `buildGraph`, and its two sorts.
use pulsebox.Base.{
  String, Bool, true, false, ◌||◌, List, [], ◌∷◌, ◌≡◌, refl, arith, ap, ◌==◌, string_eq, elem, map,
  All, Bool-cases, inl, inr, less_text, eq_iff, less_text-StrictOrder,
}
use pulsebox.Base.Sort.{insert, sort, IsSorted, sort-IsSorted}
use pulsebox.Collector.Scope.Kept.{In}
use pulsebox.Topology.{Edge, edge_id}
use pulsebox.Collector.Build.{keep_edges}

-- No text stands twice.
abbrev pub Once : List String → Type 0
Once [] = Unit {0}
Once (x ∷ xs) = (elem x xs ≡ false) × Once xs

-- Sorting by a text.
module _ {A : Type 0} (key : A → String) where
  abbrev pub less_key : A → A → Bool
  less_key a b = less_text (key a) (key b)

  map-insert :
      (a : A) (l : List A) → map key (insert less_key a l) ≡ insert less_text (key a) (map key l)
  unfolding insert
  map-insert a [] = refl
  map-insert a (b ∷ l) = ground (arith, map-insert a l)

  pub map-sort : (l : List A) → map key (sort less_key l) ≡ sort less_text (map key l)
  unfolding sort
  map-sort [] = refl
  map-sort (a ∷ l) = rw (map-insert a (sort less_key l), map-sort l) refl

  pub sort-key-IsSorted : (l : List A) → IsSorted less_text (map key (sort less_key l))
  sort-key-IsSorted l = rw (map-sort l) (sort-IsSorted less_text less_text-StrictOrder (map key l))

  All-insert : (P : A → Type 0) (a : A) (l : List A) → P a → All P l → All P (insert less_key a l)
  unfolding insert
  All-insert P a [] p h = (p, tt)
  All-insert P a (b ∷ l) p h = elim (Bool-cases (less_key b a)) [
    | inl e ↦ rw (e, insert) (h.0, All-insert P a l p h.1)
    | inr e ↦ rw (e, insert) (p, h)
  ]

  pub All-sort : (P : A → Type 0) (l : List A) → All P l → All P (sort less_key l)
  unfolding sort
  All-sort P [] h = tt
  All-sort P (a ∷ l) h = All-insert P a _ h.0 (All-sort P l h.1)

  In-insert : (x a : A) (l : List A) → In x (a ∷ l) → In x (insert less_key a l)
  unfolding insert
  In-insert x a [] i = i
  In-insert x a (b ∷ l) i = elim (Bool-cases (less_key b a)) [
    | inl e ↦ rw (e, insert) (behind (In-insert x a l) i)
    | inr e ↦ rw (e, insert) i
  ]
    where
      behind :
          (In x (a ∷ l) → In x (insert less_key a l))
          → In x (a ∷ b ∷ l)
          → In x (b ∷ insert less_key a l)
      behind into (inl p) = inr (into (inl p))
      behind into (inr (inl p)) = inl p
      behind into (inr (inr j)) = inr (into (inr j))

  pub In-sort : (x : A) (l : List A) → In x l → In x (sort less_key l)
  unfolding sort
  In-sort x [] i = i
  In-sort x (a ∷ l) (inl p) = In-insert x a (sort less_key l) (inl p)
  In-sort x (a ∷ l) (inr i) = In-insert x a (sort less_key l) (inr (In-sort x l i))

elem-insert :
    (id x : String) (l : List String) → elem id (insert less_text x l) ≡ ((x == id) || elem id l)
unfolding insert
elem-insert id x [] = ground arith
elem-insert id x (y ∷ l) = ground (arith, elem-insert id x l)

pub elem-sort : (id : String) (l : List String) → elem id (sort less_text l) ≡ elem id l
unfolding sort
elem-sort id [] = refl
elem-sort id (x ∷ l) = ground (arith, elem-insert id x (sort less_text l), elem-sort id l)

Once-insert :
    (x : String) (l : List String) → elem x l ≡ false → Once l → Once (insert less_text x l)
unfolding insert
Once-insert x [] h o = (refl, tt)
Once-insert x (y ∷ l) h o =
    ground (arith, Once-insert x l, elem-insert y x l, eq_iff x y, eq_iff y x)

pub Once-sort : (l : List String) → Once l → Once (sort less_text l)
unfolding sort
Once-sort [] o = tt
Once-sort (x ∷ l) o =
    Once-insert x (sort less_text l) (ground (arith, elem-sort x l)) (Once-sort l o.1)

-- Both ends of an edge exist.
abbrev pub EndsIn : List String → Edge → Type 0
EndsIn exists e = (elem e.source exists ≡ true) × (elem e.target exists ≡ true)

pub keep_edges-EndsIn :
    (exists : List String) (edges : List Edge) (seen : List String)
    → All (EndsIn exists) (keep_edges exists edges seen)
unfolding keep_edges
keep_edges-EndsIn exists [] seen = tt
keep_edges-EndsIn exists (e ∷ edges) seen =
    ground
      (arith, keep_edges-EndsIn exists edges (e.id ∷ seen), keep_edges-EndsIn exists edges seen)

-- An edge that has been seen is not kept again.
keep_edges-unseen :
    (id : String) (exists : List String) (edges : List Edge) (seen : List String)
    → elem id seen ≡ true
    → elem id (map edge_id (keep_edges exists edges seen)) ≡ false
unfolding keep_edges
keep_edges-unseen id exists [] seen h = refl
keep_edges-unseen id exists (e ∷ edges) seen h = ground (
  arith,
  keep_edges-unseen id exists edges (e.id ∷ seen),
  keep_edges-unseen id exists edges seen,
  λ (p : (e.id == id) ≡ true). ap (λ z. elem z seen) ((eq_iff e.id id).0 p),
)

pub keep_edges-Once :
    (exists : List String) (edges : List Edge) (seen : List String)
    → Once (map edge_id (keep_edges exists edges seen))
unfolding keep_edges
keep_edges-Once exists [] seen = tt
keep_edges-Once exists (e ∷ edges) seen = ground (
  arith,
  keep_edges-unseen e.id exists edges (e.id ∷ seen),
  eq_iff e.id e.id,
  keep_edges-Once exists edges (e.id ∷ seen),
  keep_edges-Once exists edges seen,
)
