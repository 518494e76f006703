-- ===== src/Topology.antt =====
-- internal/topology/topology.go: the graph model and its diffs; and `applyMessage` of
-- internal/web/static/app.js, with which a client follows them.
pub mod Index
pub mod Patch
pub mod Same
pub mod Walks
pub mod Unsent
pub mod Metadata
pub mod Matches
pub mod Follow
use pulsebox.Base.{
  ℕ, String, Bool, true, false, ◌&&◌, not, List, [], ◌∷◌, Option, none, some, ◌==◌, if◌then◌else◌,
  string_eq, nat_eq, length, is_nil,
}
use pulsebox.Base.Int.{ℤ, Time}
use pulsebox.Base.Dict.{Dict, lookup}
use pulsebox.Base.Float.{Float}
use Index.{upsert_all, remove_all, index_by, upserts, removed}

pub record Node (F : Type 0) : Type 0 where
  pub id : String
  pub kind : String
  pub name : String
  pub namespace : String
  pub health : String
  pub score : F
  pub reasons : List String
  pub meta : Dict String String

pub record Edge : Type 0 where
  pub id : String
  pub source : String
  pub target : String
  pub kind : String

pub record Graph (F : Type 0) : Type 0 where
  pub nodes : List (Node F)
  pub edges : List Edge
  pub updated_at : Time

pub data MsgType : Type 0 where
  msg_snapshot msg_diff : MsgType

pub record Diff (F : Type 0) : Type 0 where
  pub dtype : MsgType
  pub upsert_nodes : List (Node F)
  pub upsert_edges : List Edge
  pub remove_nodes : List String
  pub remove_edges : List String
  pub timestamp : Time

-- The loop over the reasons, at two lists of one length.
unfoldable pub same_reasons : List String → List String → Bool
same_reasons [] bs = true
same_reasons (a ∷ as') [] = false
same_reasons (a ∷ as') (b ∷ bs) = a == b && same_reasons as' bs

-- `m[k]`, which is "" where the key is missing.
abbrev pub text_at : String → Dict String String → String
text_at k m = elim (lookup k m) [ none ↦ "" | some v ↦ v ]

-- The loop over the entries of the first map.
unfoldable pub meta_within : Dict String String → Dict String String → Bool
meta_within [] b = true
meta_within ((k, v) ∷ a) b = text_at k b == v && meta_within a b

unfoldable pub edge_equal : Edge → Edge → Bool
edge_equal a b = a.id == b.id && a.source == b.source && a.target == b.target && a.kind == b.kind

abbrev pub edge_id : Edge → String
edge_id e = e.id

module _ {F : Type 0} where
  -- `d.Empty()`
  unfoldable pub empty : Diff F → Bool
  empty d =
      is_nil d.upsert_nodes
      && is_nil d.upsert_edges
      && is_nil d.remove_nodes
      && is_nil d.remove_edges

  abbrev pub node_id : Node F → String
  node_id n = n.id

  -- The two maps of `index`.
  unfoldable pub index_nodes : Graph F → Dict String (Node F)
  unfolding index_by
  index_nodes g = index_by node_id g.nodes

  unfoldable pub index_edges : Graph F → Dict String Edge
  unfolding index_by
  index_edges g = index_by edge_id g.edges

  unfoldable pub as_snapshot : Graph F → Diff F
  as_snapshot g = record {
    dtype = msg_snapshot;
    upsert_nodes = g.nodes;
    upsert_edges = g.edges;
    remove_nodes = [];
    remove_edges = [];
    timestamp = g.updated_at;
  }

module _ {F : Type 0} ⦃fl : Float F⦄ where
  unfoldable pub node_equal : Node F → Node F → Bool
  unfolding same_reasons meta_within
  node_equal a b =
      (a.id == b.id
        && a.kind == b.kind
        && a.name == b.name
        && a.namespace == b.namespace
        && a.health == b.health
        && fl.eq a.score b.score)
      && (length a.reasons == length b.reasons && length a.meta == length b.meta)
      && same_reasons a.reasons b.reasons
      && meta_within a.meta b.meta

  unfoldable pub diff_against : Graph F → Graph F → Diff F
  unfolding index_nodes index_edges upserts removed
  diff_against g prev = record {
    dtype = msg_diff;
    upsert_nodes = upserts node_equal (index_nodes prev) (index_nodes g);
    upsert_edges = upserts edge_equal (index_edges prev) (index_edges g);
    remove_nodes = removed (index_nodes prev) (index_nodes g);
    remove_edges = removed (index_edges prev) (index_edges g);
    timestamp = g.updated_at;
  }

-- What a client holds: its maps `nodes` and `edges`.
pub record View (F : Type 0) : Type 0 where
  pub nodes : Dict String (Node F)
  pub edges : Dict String Edge

abbrev cleared : {F : Type 0} → MsgType → View F → View F
cleared msg_snapshot v = record { nodes = []; edges = [] }
cleared msg_diff v = v

-- `applyMessage`, as far as it changes the maps.
unfoldable pub apply_message : {F : Type 0} → Diff F → View F → View F
unfolding upsert_all remove_all
apply_message d v =
    let w = cleared d.dtype v in
    record {
      nodes = remove_all d.remove_nodes (upsert_all node_id d.upsert_nodes w.nodes);
      edges = remove_all d.remove_edges (upsert_all edge_id d.upsert_edges w.edges);
    }
