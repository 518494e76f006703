-- ===== src/Collector/Build.antt =====
-- internal/collector/graph.go: what `buildGraph` keeps while it reads the caches, and how it ends.
pub mod Meta
pub mod Lookups
pub mod Storage
pub mod Workloads
pub mod Pods
pub mod Roots
pub mod Closed
pub mod Steps
pub mod Kept
pub mod Whole
pub mod Rated
pub mod Routes
pub mod Ids
pub mod Scores
pub mod Counts
pub mod Scored
pub mod Bounds
use pulsebox.Base.{
  String, Bool, true, false, ◌&&◌, not, List, [], ◌∷◌, ◌++◌, Option, none, some, if◌then◌else◌,
  ◌==◌, string_eq, elem, concat, less_text,
}
use pulsebox.Base.Int.{Time}
use pulsebox.Base.Dict.{Dict, lookup, put}
use pulsebox.Base.Sort.{sort}
use pulsebox.Base.Float.{Float}
use pulsebox.Health.{Result, state_text}
use pulsebox.Health.Reasons.{normalize_reasons}
use pulsebox.Topology.{Node, Edge, Graph}

-- `id`: cluster-scoped kinds have the namespace "".
unfoldable pub object_id : String → String → String → String
object_id kind ns name =
    if ns == "" then concat (kind ∷ "/" ∷ name ∷ []) else concat (kind ∷ "/" ∷ ns ∷ "/" ∷ name ∷ [])

abbrev pub cluster_id : String
cluster_id = "Cluster"

-- The variables of `buildGraph`; `exists` lists the keys of the map.
pub record Build (F : Type 0) : Type 0 where
  pub nodes : List (Node F)
  pub edges : List Edge
  pub exists : List String
  pub ns_children : Dict String (List (Result F))
  pub cluster_children : List (Result F)

module _ {F : Type 0} where
  unfoldable pub new_build : Build F
  new_build = record {
    nodes = [];
    edges = [];
    exists = [];
    ns_children = [];
    cluster_children = [];
  }

  -- `add`
  unfoldable pub add_node : Node F → Build F → Build F
  add_node n b = record b { nodes = b.nodes ++ n ∷ []; exists = b.exists ++ n.id ∷ [] }

  -- `addEdge`
  unfoldable pub add_edge : String → String → String → Build F → Build F
  add_edge src dst kind b = record b {
    edges =
        b.edges
        ++ (record {
          id = concat (kind ∷ ":" ∷ src ∷ "->" ∷ dst ∷ []);
          source = src;
          target = dst;
          kind = kind;
        })
          ∷ [];
  }

  -- `nsChildren[ns]`, which is empty where the key is missing.
  unfoldable pub children_of : String → Dict String (List (Result F)) → List (Result F)
  unfolding lookup
  children_of ns m = elim (lookup ns m) [ none ↦ [] | some rs ↦ rs ]

  -- `nsChildren[ns] = append(nsChildren[ns], res)`
  unfoldable pub add_child : String → Result F → Build F → Build F
  unfolding put children_of
  add_child ns r b = record b {
    ns_children = put ns (children_of ns b.ns_children ++ r ∷ []) b.ns_children;
  }

  unfoldable pub add_cluster_child : Result F → Build F → Build F
  add_cluster_child r b = record b { cluster_children = b.cluster_children ++ r ∷ [] }

  -- A node with a verdict, whose reasons are normalized.
  unfoldable pub scored_node : String → String → String → Result F → Dict String String → Node F
  unfolding object_id state_text normalize_reasons
  scored_node kind ns name r meta = record {
    id = object_id kind ns name;
    kind = kind;
    name = name;
    namespace = ns;
    health = state_text r.state;
    score = r.score;
    reasons = normalize_reasons r.reasons;
    meta = meta;
  }

-- The loop that keeps an edge whose ends exist, and each edge once; `seen` lists the map's keys.
unfoldable pub keep_edges : List String → List Edge → List String → List Edge
keep_edges exists [] seen = []
keep_edges exists (e ∷ edges) seen =
    if elem e.source exists && elem e.target exists && not (elem e.id seen)
    then e ∷ keep_edges exists edges (e.id ∷ seen)
    else keep_edges exists edges seen

abbrev pub less_edge : Edge → Edge → Bool
less_edge a b = less_text a.id b.id

module _ {F : Type 0} where
  abbrev pub less_node : Node F → Node F → Bool
  less_node a b = less_text a.id b.id

  -- The end of `buildGraph`: the edges that are kept, and the order.
  unfoldable pub finish : Time → Build F → Graph F
  unfolding keep_edges sort
  finish now b = record {
    nodes = sort less_node b.nodes;
    edges = sort less_edge (keep_edges b.exists b.edges []);
    updated_at = now;
  }
