-- ===== src/Topology/Follow.antt =====
-- topology.go and app.js: a client that applies the snapshot and then the diffs.
use pulsebox.Base.{
  String, Bool, true, ◌&&◌, not, ◌≡◌, refl, arith, Option, none, some, if◌then◌else◌, string_eq,
  or_else, is_some, inl, inr, ◌∙◌, Bool-cases, ap,
}
use pulsebox.Base.Dict.{lookup}
use pulsebox.Base.Float.{Float, FloatLaws}
use pulsebox.Topology.Index.{upsert_all, remove_all, is_changed}
use pulsebox.Topology.Patch.{index_by-Distinct, index_by-Keyed, sent, lookup-patched}
use pulsebox.Topology.{
  Graph, View, node_id, edge_id, index_nodes, index_edges, as_snapshot, empty, edge_equal,
  node_equal, diff_against, apply_message,
}
use pulsebox.Topology.Same.{
  SameShown, SameShown-refl, SameShown-trans, node_equal-SameShown, edge_equal-eq,
}

-- Both are missing, or both are there and related.
abbrev pub Alike : {V : Type 0} → (V → V → Type 0) → Option V → Option V → Type 0
Alike R none none = Unit {0}
Alike R none (some b) = ⊥
Alike R (some a) none = ⊥
Alike R (some a) (some b) = R a b

-- The old value, the new one and the client's: after a diff the client's is like the new one.
pub Alike-patched :
    {V : Type 0} (R : V → V → Type 0) (same : V → V → Bool)
    → ((a : V) → R a a)
    → ((a b c : V) → R a b → R b c → R a c)
    → (o n c : Option V) → ((a b : V) → o ≡ some a → n ≡ some b → same a b ≡ true → R a b)
    → Alike R c o
    → Alike R (if is_some o && not (is_some n) then none else or_else (sent same o n) c) n
unfolding is_changed
Alike-patched R same r t none none none s h = tt
Alike-patched R same r t none none (some c) s h = elim h [ ]
Alike-patched R same r t none (some n) c s h = r n
Alike-patched R same r t (some o) none c s h = tt
Alike-patched R same r t (some o) (some n) none s h = elim h [ ]
Alike-patched R same r t (some o) (some n) (some c) s h = elim (Bool-cases (same o n)) [
  | inl e ↦ rw e (t c o n h (s o n refl refl e))
  | inr e ↦ rw e (r n)
]

-- The client's view has the graph's edges, and its nodes up to what `nodeEqual` compares.
pub record Shows {F : Type 0} (fl : Float F) (v : View F) (g : Graph F) : Type 0 where
  pub nodes :
      (j : String) → Alike (SameShown ⦃fl = fl⦄) (lookup j v.nodes) (lookup j (index_nodes g))
  pub edges : (j : String) → lookup j v.edges ≡ lookup j (index_edges g)

pub Alike-refl :
    {V : Type 0} (R : V → V → Type 0) → ((a : V) → R a a) → (o : Option V) → Alike R o o
Alike-refl R r none = tt
Alike-refl R r (some a) = r a

Alike-of_eq : {V : Type 0} (o p : Option V) → o ≡ p → Alike ◌≡◌ o p
Alike-of_eq o p e = rw e (Alike-refl ◌≡◌ (λ a. refl) p)

eq_of_Alike : {V : Type 0} (o p : Option V) → Alike ◌≡◌ o p → o ≡ p
eq_of_Alike none none h = refl
eq_of_Alike none (some b) h = elim h [ ]
eq_of_Alike (some a) none h = elim h [ ]
eq_of_Alike (some a) (some b) h = ap some h

module _ {F : Type 0} ⦃fl : Float F⦄ where
  -- After a graph's snapshot a client shows that graph, whatever it held before.
  pub snapshot-Shows : (g : Graph F) (v : View F) → Shows fl (apply_message (as_snapshot g) v) g
  unfolding apply_message as_snapshot index_nodes index_edges
  snapshot-Shows g v = record {
    nodes = λ j. Alike-refl SameShown SameShown-refl _;
    edges = λ j. refl;
  }

  -- A client that shows the old graph shows the new one after applying the diff between them: it has
  -- its edges under its IDs, and its nodes up to the metadata.
  pub diff-Shows :
      FloatLaws fl
      → (g prev : Graph F) (v : View F) → Shows fl v prev
      → Shows fl (apply_message (diff_against g prev) v) g
  unfolding apply_message diff_against
  diff-Shows laws g prev v h = record {
    nodes = λ j.
        rw
          (lookup-patched node_id node_equal j v.nodes (index_nodes prev) (index_nodes g)
            (index_by-Distinct node_id g.nodes) (index_by-Keyed node_id g.nodes))
          (Alike-patched SameShown node_equal SameShown-refl (SameShown-trans laws) _ _ _
            (λ a b p q. node_equal-SameShown a b) (h.nodes j));
    edges = λ j.
        rw
          (lookup-patched edge_id edge_equal j v.edges (index_edges prev) (index_edges g)
            (index_by-Distinct edge_id g.edges) (index_by-Keyed edge_id g.edges))
          (eq_of_Alike _ _ (
            Alike-patched ◌≡◌ edge_equal (λ a. refl) (λ a b c p q. p ∙ q) _ _ _
              (λ a b p q. edge_equal-eq a b) (Alike-of_eq _ _ (h.edges j))));
  }

  -- Applying a diff that is empty leaves a client's maps as they are.
  pub empty-apply_message :
      (g prev : Graph F) (v : View F)
      → empty (diff_against g prev) ≡ true
      → apply_message (diff_against g prev) v ≡ v
  unfolding apply_message empty diff_against upsert_all remove_all
  empty-apply_message g prev v h = ground arith
