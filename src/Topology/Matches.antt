-- ===== src/Topology/Matches.antt =====
-- topology.go and app.js: a client that has the graph with its metadata, and the diffs that it applies.
use mathlib.Core.List.{Permᴰ}
use pulsebox.Base.{String, true, List, ◌≡◌, refl, Option, none, some, string_eq, ◌∙◌, All}
use pulsebox.Base.Dict.{lookup, Distinct}
use pulsebox.Base.Float.{Float, FloatLaws}
use pulsebox.Topology.Patch.{index_by-Distinct, index_by-Keyed, lookup-patched}
use pulsebox.Topology.{
  Node, Edge, Graph, View, node_id, edge_id, index_nodes, index_edges, edge_equal, node_equal,
  diff_against, apply_message, as_snapshot,
}
use pulsebox.Topology.Same.{SameShown, SameShown-refl, SameShown-trans, node_equal-SameShown}
use pulsebox.Topology.Follow.{Alike, Alike-refl, Alike-patched, diff-Shows}
use pulsebox.Topology.Walks.{upserts-IdsOnce, lookup-patched_of_perm}
use pulsebox.Topology.Metadata.{KeepsEmpty, node_equal-meta, All-index_by}

module _ {F : Type 0} ⦃fl : Float F⦄ where
  -- Equal in every field: scores are compared by ==, metadata by what is found under each key.
  pub record SameNode (a b : Node F) : Type 0 where
    pub shown : SameShown a b
    pub meta : (k : String) → lookup k a.meta ≡ lookup k b.meta

  SameNode-refl : (a : Node F) → SameNode a a
  SameNode-refl a = record { shown = SameShown-refl a; meta = λ k. refl }

  SameNode-trans : FloatLaws fl → (a b c : Node F) → SameNode a b → SameNode b c → SameNode a c
  SameNode-trans laws a b c p q = record {
    shown = SameShown-trans laws a b c p.shown q.shown;
    meta = λ k. p.meta k ∙ q.meta k;
  }

-- The client has the graph's nodes, with their metadata, and its edges.
pub record Matches {F : Type 0} (fl : Float F) (v : View F) (g : Graph F) : Type 0 where
  pub nodes :
      (j : String) → Alike (SameNode ⦃fl = fl⦄) (lookup j v.nodes) (lookup j (index_nodes g))
  pub edges : (j : String) → lookup j v.edges ≡ lookup j (index_edges g)

-- No node has a key of the metadata twice.
abbrev pub MetaOnce : {F : Type 0} → Graph F → Type 0
MetaOnce g = All (λ n. Distinct n.meta) g.nodes

-- A node that stays keeps each entry of its metadata that has an empty value, perhaps with another.
abbrev pub KeepsEntries : {F : Type 0} → Graph F → Graph F → Type 0
KeepsEntries g prev =
    (j : String) (o n : Node _)
    → lookup j (index_nodes prev) ≡ some o
    → lookup j (index_nodes g) ≡ some n
    → KeepsEmpty o.meta n.meta

module _ {F : Type 0} ⦃fl : Float F⦄ where
  Alike-shown : (o p : Option (Node F)) → Alike SameNode o p → Alike SameShown o p
  Alike-shown none none h = tt
  Alike-shown none (some b) h = elim h [ ]
  Alike-shown (some a) none h = elim h [ ]
  Alike-shown (some a) (some b) h = h.shown

  -- After a graph's snapshot a client has that graph.
  pub snapshot-Matches : (g : Graph F) (v : View F) → Matches fl (apply_message (as_snapshot g) v) g
  unfolding apply_message as_snapshot index_nodes index_edges
  snapshot-Matches g v = record {
    nodes = λ j. Alike-refl SameNode SameNode-refl _;
    edges = λ j. refl;
  }

  -- Nodes of the two graphs that count as equal are equal in every field.
  indexed-SameNode :
      (g prev : Graph F) (j : String) (a b : Node F)
      → MetaOnce g
      → MetaOnce prev
      → KeepsEntries g prev
      → lookup j (index_nodes prev) ≡ some a
      → lookup j (index_nodes g) ≡ some b
      → node_equal a b ≡ true
      → SameNode a b
  unfolding index_nodes
  indexed-SameNode g prev j a b once once' keeps p q e = record {
    shown = node_equal-SameShown a b e;
    meta =
        node_equal-meta a b (All-index_by node_id (λ n. Distinct n.meta) j prev.nodes a once' p)
          (All-index_by node_id (λ n. Distinct n.meta) j g.nodes b once q) (keeps j a b p q) e;
  }

  diff-Matches :
      FloatLaws fl
      → (g prev : Graph F) (v : View F) → MetaOnce g
      → MetaOnce prev
      → KeepsEntries g prev
      → Matches fl v prev
      → Matches fl (apply_message (diff_against g prev) v) g
  unfolding apply_message diff_against
  diff-Matches laws g prev v once once' keeps h = record {
    nodes = λ j.
        rw
          (lookup-patched node_id node_equal j v.nodes (index_nodes prev) (index_nodes g)
            (index_by-Distinct node_id g.nodes) (index_by-Keyed node_id g.nodes))
          (Alike-patched SameNode node_equal SameNode-refl (SameNode-trans laws) _ _ _
            (λ a b. indexed-SameNode g prev j a b once once' keeps) (h.nodes j));
    edges =
        (diff-Shows laws g prev v
          (record { nodes = λ j. Alike-shown _ _ (h.nodes j); edges = h.edges })).edges;
  }

  -- In whatever order the four loops of `DiffAgainst` walk their maps, a client that has the old graph
  -- has the new one after applying the diff: its edges, and its nodes with all fields, the metadata
  -- included. No node has a metadata key twice, and a node that is in both graphs keeps the entries of
  -- its metadata that have an empty value, perhaps with another value.
  pub walked-Matches :
      FloatLaws fl
      → (g prev : Graph F) (v : View F) (nodes : List (Node F)) (edges : List Edge)
        (gone_nodes gone_edges : List String)
      → MetaOnce g
      → MetaOnce prev
      → KeepsEntries g prev
      → Matches fl v prev
      → Permᴰ (diff_against g prev).upsert_nodes nodes
      → Permᴰ (diff_against g prev).upsert_edges edges
      → Permᴰ (diff_against g prev).remove_nodes gone_nodes
      → Permᴰ (diff_against g prev).remove_edges gone_edges
      → Matches fl
          (apply_message
            (record (diff_against g prev) {
              upsert_nodes = nodes;
              upsert_edges = edges;
              remove_nodes = gone_nodes;
              remove_edges = gone_edges;
            })
            v)
          g
  unfolding apply_message diff_against
  walked-Matches laws g prev v nodes edges gone_nodes gone_edges once once' keeps h p q r s =
      let matches = diff-Matches laws g prev v once once' keeps h in
      record {
        nodes = λ j.
            rw
              (lookup-patched_of_perm node_id j v.nodes p r (
                upserts-IdsOnce node_id node_equal (index_nodes prev) (index_nodes g)
                  (index_by-Distinct node_id g.nodes) (index_by-Keyed node_id g.nodes)))
              (matches.nodes j);
        edges = λ j.
            rw
              (lookup-patched_of_perm edge_id j v.edges q s (
                upserts-IdsOnce edge_id edge_equal (index_edges prev) (index_edges g)
                  (index_by-Distinct edge_id g.edges) (index_by-Keyed edge_id g.edges)))
              (matches.edges j);
      }
