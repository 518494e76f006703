-- ===== src/Topology/Unsent.antt =====
-- topology.go: a change of the metadata that `DiffAgainst` does not send.
use pulsebox.Base.{String, true, false, [], ◌∷◌, none, some, ◌≡◌, refl, ◌==◌, string_eq}
use pulsebox.Base.Dict.{lookup}
use pulsebox.Base.Float.{Float}
use pulsebox.Topology.Index.{is_changed}
use pulsebox.Topology.Patch.{
  find_last, find_last-upserts, index_by-Distinct, index_by-Keyed, lookup-patched,
}
use pulsebox.Topology.{
  Graph, View, Node, node_id, index_nodes, node_equal, diff_against, apply_message,
}
use pulsebox.Topology.Same.{meta-missed}

module _ {F : Type 0} ⦃fl : Float F⦄ where
  -- If the only metadata that a node has in the old graph is an entry with an empty value, and in the
  -- new graph it is the same but for another entry in its place, under another key, then the diff does
  -- not upsert the node, and a client that applies it keeps under the node's ID what it had. The score
  -- is a number, not NaN.
  pub meta-unsent :
      (g prev : Graph F) (v : View F) (n : Node F) (k j value : String)
      → fl.eq n.score n.score ≡ true
      → (j == k) ≡ false
      → lookup n.id (index_nodes prev) ≡ some (record n { meta = (k, "") ∷ [] })
      → lookup n.id (index_nodes g) ≡ some (record n { meta = (j, value) ∷ [] })
      → (find_last node_id n.id (diff_against g prev).upsert_nodes ≡ none)
        × (lookup n.id (apply_message (diff_against g prev) v).nodes ≡ lookup n.id v.nodes)
  unfolding diff_against apply_message is_changed
  meta-unsent g prev v n k j value s h old new =
      let equal = meta-missed n k j value s h in
      (
        rw
            (
              find_last-upserts node_id node_equal n.id (index_nodes prev) (index_nodes g)
                  (index_by-Distinct node_id g.nodes) (index_by-Keyed node_id g.nodes),
              old,
              new,
              equal,
            )
            refl,
        rw
            (
              lookup-patched node_id node_equal n.id v.nodes (index_nodes prev) (index_nodes g)
                  (index_by-Distinct node_id g.nodes) (index_by-Keyed node_id g.nodes),
              old,
              new,
              equal,
            )
            refl,
      )
