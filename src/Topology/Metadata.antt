-- ===== src/Topology/Metadata.antt =====
-- topology.go: when `nodeEqual` sees every change of the metadata.
use pulsebox.Base.{
  String, true, List, [], ◌∷◌, suc, ◌≡◌, refl, arith, none, some, ◌==◌, string_eq, eq_iff, is_some,
  ap, length, Option-cases, inl, inr, All,
}
use pulsebox.Base.Dict.{Dict, lookup, delete, Distinct, lookup-delete, delete-Distinct}
use pulsebox.Base.Float.{Float}
use pulsebox.Topology.Index.{index_by}
use pulsebox.Topology.Patch.{find_last, lookup-upsert_all}
use pulsebox.Topology.{Node, meta_within, text_at, node_equal}

-- The second map has the entries of the first.
abbrev Has : Dict String String → Dict String String → Type 0
Has [] b = Unit {0}
Has ((k, v) ∷ a) b = (lookup k b ≡ some v) × Has a b

-- An entry with an empty value stays an entry.
abbrev pub KeepsEmpty : Dict String String → Dict String String → Type 0
KeepsEmpty a b = (k : String) → lookup k a ≡ some "" → is_some (lookup k b) ≡ true

found_value :
    (k v : String) (b : Dict String String)
    → (text_at k b == v) ≡ true
    → (v ≡ "" → is_some (lookup k b) ≡ true)
    → lookup k b ≡ some v
found_value k v b e h = elim (Option-cases (lookup k b)) [
  | inl p ↦ ground (arith, p, e, h, eq_iff "" v)
  | inr (w, p) ↦ ground (arith, p, e, eq_iff w v)
]

within-Has :
    (a b : Dict String String) → Distinct a → KeepsEmpty a b → meta_within a b ≡ true → Has a b
unfolding meta_within lookup
within-Has [] b d keeps h = tt
within-Has ((k, v) ∷ a) b d keeps h = (
  found_value k v b (ground (arith, h)) (λ e. keeps k (ground (arith, e, eq_iff k k))),
  within-Has a b d.1
      (λ j e.
        keeps j (
          ground (arith, e, d.0, λ (p : (k == j) ≡ true). ap (λ z. lookup z a) ((eq_iff k j).0 p))))
      (ground (arith, h)),
)

length-delete_absent :
    (k : String) (m : Dict String String) → lookup k m ≡ none → length (delete k m) ≡ length m
unfolding lookup delete
length-delete_absent k [] h = refl
length-delete_absent k ((j, w) ∷ m) h = ground (arith, h, length-delete_absent k m)

length-delete :
    (k v : String) (m : Dict String String)
    → Distinct m
    → lookup k m ≡ some v
    → length m ≡ suc (length (delete k m))
unfolding lookup delete
length-delete k v [] d h = ground (arith, h)
length-delete k v ((j, w) ∷ m) d h = ground (
  arith,
  h,
  d,
  length-delete k v m d.1,
  length-delete_absent k m,
  λ (p : (j == k) ≡ true). ap (λ z. lookup z m) ((eq_iff j k).0 p),
)

-- The entries under other keys are still there when a key is deleted.
Has-delete :
    (k : String) (a b : Dict String String) → lookup k a ≡ none → Has a b → Has a (delete k b)
unfolding lookup
Has-delete k [] b n h = tt
Has-delete k ((j, w) ∷ a) b n h =
    ground (arith, n, h, Has-delete k a b, lookup-delete k j b, eq_iff k j, eq_iff j k)

-- A map with distinct keys that has as many entries as another, and all of the other's, equals it.
Has-lookup :
    (a b : Dict String String)
    → Distinct a
    → Distinct b
    → length a ≡ length b
    → Has a b
    → (j : String) → lookup j a ≡ lookup j b
unfolding lookup
Has-lookup [] [] d e l h j = refl
Has-lookup [] (x ∷ b) d e l h j = ground (arith, l)
Has-lookup ((k, v) ∷ a) b d e l h j = ground (
  arith,
  h.0,
  Has-lookup a (delete k b) d.1 (delete-Distinct k b e)
      (omega (arith, l, length-delete k v b e h.0)) (Has-delete k a b d.0 h.1) j,
  lookup-delete k j b,
  λ (p : (k == j) ≡ true). ap (λ z. lookup z b) ((eq_iff k j).0 p),
)

module _ {F : Type 0} ⦃fl : Float F⦄ where
  -- Where the entries with empty values stay, nodes that count as equal have the same metadata.
  pub node_equal-meta :
      (a b : Node F)
      → Distinct a.meta
      → Distinct b.meta
      → KeepsEmpty a.meta b.meta
      → node_equal a b ≡ true
      → (k : String) → lookup k a.meta ≡ lookup k b.meta
  unfolding node_equal
  node_equal-meta a b d e keeps h =
      Has-lookup a.meta b.meta d e (ground (arith, h))
        (within-Has a.meta b.meta d keeps (ground (arith, h)))

module _ {V : Type 0} (id : V → String) (P : V → Type 0) where
  All-find_last : (j : String) (xs : List V) (x : V) → All P xs → find_last id j xs ≡ some x → P x
  unfolding find_last
  All-find_last j [] x h e = absurd (ground (arith, e))
  All-find_last j (y ∷ ys) x h e = elim (Option-cases (find_last id j ys)) [
    | inl p ↦ ground (arith, p, e, h.0)
    | inr (w, p) ↦ All-find_last j ys x h.1 (ground (arith, p, e))
  ]

  -- What an index holds is one of the values.
  pub All-index_by :
      (j : String) (xs : List V) (x : V) → All P xs → lookup j (index_by id xs) ≡ some x → P x
  unfolding index_by lookup
  All-index_by j xs x h e = All-find_last j xs x h (ground (arith, e, lookup-upsert_all id j xs []))
