-- ===== src/Collector/Scope.antt =====
-- `NamespaceSnapshot` of internal/collector/collector.go: the graph of one namespace.
pub mod Kept
use pulsebox.Base.{
  String, Bool, true, false, ◌&&◌, ◌||◌, List, [], ◌∷◌, if◌then◌else◌, ◌==◌, string_eq, elem,
  keep_if,
}
use pulsebox.Topology.{Node, Edge, Graph}

module _ {F : Type 0} where
  unfoldable pub is_selected : String → Node F → Bool
  is_selected ns n =
      n.namespace == ns || (n.kind == "Namespace" && n.name == ns) || n.kind == "Cluster"

  -- The loop over the nodes, with the members of `keep` so far.
  unfoldable pub select : String → List (Node F) → List String → List String
  unfolding is_selected
  select ns [] keep = keep
  select ns (n ∷ nodes) keep =
      if is_selected ns n then select ns nodes (n.id ∷ keep) else select ns nodes keep

-- The loop over the edges, which reads the set that it extends.
unfoldable pub pull_in : List Edge → List String → List String
pull_in [] keep = keep
pull_in (e ∷ edges) keep =
    if elem e.source keep then pull_in edges (e.target ∷ keep) else pull_in edges keep

module _ {F : Type 0} where
  unfoldable pub kept : String → Graph F → List String
  unfolding select pull_in
  kept ns full = pull_in full.edges (select ns full.nodes [])

  unfoldable pub namespace_snapshot : String → Graph F → Graph F
  unfolding kept keep_if
  namespace_snapshot ns full =
      let keep = kept ns full in
      record {
        nodes = keep_if (λ n. elem n.id keep) full.nodes;
        edges = keep_if (λ e. elem e.source keep && elem e.target keep) full.edges;
        updated_at = full.updated_at;
      }
