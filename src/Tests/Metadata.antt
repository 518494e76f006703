-- ===== src/Tests/Metadata.antt =====
-- Diffs between graphs whose nodes have metadata.
use mathlib.Core.List.{Permᴰ}
use pulsebox.Base.{ℕ, String, [], ◌∷◌, none, ◌≡◌, refl, arith, string_eq, All}
use pulsebox.Base.Dict.{lookup}
use pulsebox.Base.Fixed.{fixed, fixed-FloatLaws}
use pulsebox.Base.Int.{pos}
use pulsebox.Topology.{
  Node, Graph, node_id, index_nodes, as_snapshot, node_equal, diff_against, apply_message,
}
use pulsebox.Topology.Index.{index_by}
use pulsebox.Topology.Patch.{find_last}
use pulsebox.Topology.Metadata.{KeepsEmpty, All-index_by}
use pulsebox.Topology.Matches.{Matches, snapshot-Matches, KeepsEntries, walked-Matches}
use pulsebox.Topology.Unsent.{meta-unsent}
use pulsebox.Tests.Streams.{node_of, blank}

abbrev zoned : String → String → Node ℕ
zoned name zone = record (node_of name "healthy") { meta = ("zone", zone) ∷ [] }

abbrev old_zones : Graph ℕ
old_zones = record { nodes = zoned "a" "" ∷ zoned "b" "east" ∷ []; edges = []; updated_at = pos 1 }

abbrev new_zones : Graph ℕ
new_zones = record { nodes = zoned "a" "west" ∷ zoned "c" "" ∷ []; edges = []; updated_at = pos 2 }

zone_kept : (v w : String) → KeepsEmpty (("zone", v) ∷ []) (("zone", w) ∷ [])
unfolding lookup
zone_kept v w k h = ground (arith, h)

zones_kept : KeepsEntries new_zones old_zones
unfolding index_nodes index_by
zones_kept j o n p q =
    let pairs =
      All-index_by node_id (λ (a : Node ℕ). All (λ b. KeepsEmpty a.meta b.meta) new_zones.nodes) j
        old_zones.nodes o
        (
          (zone_kept "" "west", (zone_kept "" "", tt)),
          ((zone_kept "east" "west", (zone_kept "east" "", tt)), tt),
        )
        p in
    All-index_by node_id (λ b. KeepsEmpty o.meta b.meta) j new_zones.nodes n pairs q

-- The walk over the new nodes meets `c` before `a`, of which only the zone has changed.
walked-Matches_example :
    Matches fixed
      (apply_message
        (record (diff_against new_zones old_zones) {
          upsert_nodes = zoned "c" "" ∷ zoned "a" "west" ∷ [];
          upsert_edges = [];
          remove_nodes = "b" ∷ [];
          remove_edges = [];
        })
        (apply_message (as_snapshot old_zones) blank))
      new_zones
unfolding diff_against node_equal
walked-Matches_example =
    walked-Matches fixed-FloatLaws new_zones old_zones (apply_message (as_snapshot old_zones) blank)
      (zoned "c" "" ∷ zoned "a" "west" ∷ []) [] ("b" ∷ []) [] ((refl, tt), ((refl, tt), tt))
      ((refl, tt), ((refl, tt), tt)) zones_kept (snapshot-Matches old_zones blank)
      (Permᴰ.swap refl refl) Permᴰ.nil (Permᴰ.cons refl Permᴰ.nil) Permᴰ.nil

-- The node `a` has an empty storage class, and then a capacity in its place.
abbrev without_class : Graph ℕ
without_class = record old_zones {
  nodes = record (node_of "a" "healthy") { meta = ("storageClass", "") ∷ [] } ∷ [];
}

abbrev with_capacity : Graph ℕ
with_capacity = record old_zones {
  nodes = record (node_of "a" "healthy") { meta = ("capacity", "1Gi") ∷ [] } ∷ [];
}

meta-unsent_example :
    (find_last node_id "a" (diff_against with_capacity without_class).upsert_nodes ≡ none)
    × (lookup "a" (apply_message (diff_against with_capacity without_class) blank).nodes ≡ none)
unfolding lookup index_nodes
meta-unsent_example =
    meta-unsent with_capacity without_class blank (node_of "a" "healthy") "storageClass" "capacity"
      "1Gi" refl refl refl refl
