-- ===== src/Collector/Scope/Kept.antt =====
-- collector.go: the nodes and edges that `NamespaceSnapshot` keeps.
use pulsebox.Base.{
  String, true, ◌&&◌, List, [], ◌∷◌, ◌≡◌, ◌⊎◌, refl, arith, ◌==◌, string_eq, elem, keep_if, map, ap,
  eq_iff, Bool-cases, inl, inr, All, subst,
}
use pulsebox.Topology.{Node, Edge, Graph, node_id}
use pulsebox.Collector.Scope.{is_selected, select, pull_in, kept, namespace_snapshot}

-- Whether a list holds a node, or an edge, with some test.
abbrev pub HasNode : {F : Type 0} → String → List (Node F) → Type 0
HasNode id nodes = elem id (map node_id nodes) ≡ true

-- Each edge's ends are nodes of the graph.
abbrev pub IsClosed : {F : Type 0} → List (Node F) → List Edge → Type 0
IsClosed nodes edges = All (λ e. HasNode e.source nodes × HasNode e.target nodes) edges

elem-keep_if :
    {F : Type 0} (id : String) (keep : List String) (nodes : List (Node F))
    → elem id (map node_id (keep_if (λ n. elem n.id keep) nodes))
      ≡ (elem id keep && elem id (map node_id nodes))
unfolding keep_if
elem-keep_if id keep [] = ground arith
elem-keep_if id keep (n ∷ nodes) = elim (Bool-cases (n.id == id)) [
  | inl hit ↦
      ground (arith, ap (λ z. elem z keep) ((eq_iff n.id id).0 hit), elem-keep_if id keep nodes)
  | inr miss ↦ ground (arith, elem-keep_if id keep nodes)
]

IsClosed-keep_if :
    {F : Type 0} (keep : List String) (nodes : List (Node F)) (edges : List Edge)
    → IsClosed nodes edges
    → IsClosed
        (keep_if (λ n. elem n.id keep) nodes)
        (keep_if (λ e. elem e.source keep && elem e.target keep) edges)
unfolding keep_if
IsClosed-keep_if keep nodes [] h = tt
IsClosed-keep_if keep nodes (e ∷ edges) h = ground (
  arith,
  elem-keep_if e.source keep nodes,
  elem-keep_if e.target keep nodes,
  IsClosed-keep_if keep nodes edges h.1,
)

-- The loops only add to `keep`.
select-keeps :
    {F : Type 0} (ns : String) (nodes : List (Node F)) (keep : List String) (id : String)
    → elem id keep ≡ true
    → elem id (select ns nodes keep) ≡ true
unfolding select
select-keeps ns [] keep id h = h
select-keeps ns (n ∷ nodes) keep id h =
    ground (arith, select-keeps ns nodes keep id, select-keeps ns nodes (n.id ∷ keep) id)

pull_in-keeps :
    (edges : List Edge) (keep : List String) (id : String)
    → elem id keep ≡ true
    → elem id (pull_in edges keep) ≡ true
unfolding pull_in
pull_in-keeps [] keep id h = h
pull_in-keeps (e ∷ edges) keep id h =
    ground (arith, pull_in-keeps edges keep id, pull_in-keeps edges (e.target ∷ keep) id)

-- Membership, of a node or an edge.
abbrev pub In : {A : Type 0} → A → List A → Type 0
In a [] = ⊥
In a (x ∷ xs) = (x ≡ a) ⊎ In a xs

pub All-In : {A : Type 0} (P : A → Type 0) (x : A) (xs : List A) → All P xs → In x xs → P x
All-In P x [] h i = elim i [ ]
All-In P x (y ∷ xs) h (inl e) = subst P e h.0
All-In P x (y ∷ xs) h (inr i) = All-In P x xs h.1 i

select-finds :
    {F : Type 0} (ns : String) (nodes : List (Node F)) (keep : List String) (n : Node F)
    → In n nodes
    → is_selected ns n ≡ true
    → elem n.id (select ns nodes keep) ≡ true
unfolding select
select-finds ns [] keep n i h = elim i [ ]
select-finds ns (m ∷ nodes) keep n (inl p) h =
    rw (p, h) (select-keeps ns nodes (n.id ∷ keep) n.id (ground (arith, eq_iff n.id n.id)))
select-finds ns (m ∷ nodes) keep n (inr i) h =
    ground (arith, select-finds ns nodes keep n i, select-finds ns nodes (m.id ∷ keep) n i)

pull_in-finds :
    (edges : List Edge) (keep : List String) (e : Edge)
    → In e edges
    → elem e.source keep ≡ true
    → elem e.target (pull_in edges keep) ≡ true
unfolding pull_in
pull_in-finds [] keep e i h = elim i [ ]
pull_in-finds (d ∷ edges) keep e (inl p) h =
    rw (p, h)
      (pull_in-keeps edges (e.target ∷ keep) e.target (ground (arith, eq_iff e.target e.target)))
pull_in-finds (d ∷ edges) keep e (inr i) h =
    ground (arith, pull_in-finds edges keep e i, pull_in-finds edges (d.target ∷ keep) e i)

-- What `select` adds is selected, and what `pull_in` adds is the target of an edge from a kept node.
select-why :
    {F : Type 0} (ns : String) (nodes : List (Node F)) (keep : List String) (id : String)
    → elem id (select ns nodes keep) ≡ true
    → (elem id keep ≡ true) ⊎ ((n : Node F) × In n nodes × (is_selected ns n ≡ true) × (n.id ≡ id))
unfolding select
select-why ns [] keep id h = inl h
select-why ns (n ∷ nodes) keep id h = elim (Bool-cases (is_selected ns n)) [
  | inl s ↦ elim (select-why ns nodes (n.id ∷ keep) id (ground arith)) [
    | inl k ↦ elim (Bool-cases (n.id == id)) [
      | inl hit ↦ inr (n, inl refl, s, (eq_iff n.id id).0 hit)
      | inr miss ↦ inl (ground arith)
    ]
    | inr (m, i, t, q) ↦ inr (m, inr i, t, q)
  ]
  | inr s ↦ elim (select-why ns nodes keep id (ground arith)) [
    | inl k ↦ inl k
    | inr (m, i, t, q) ↦ inr (m, inr i, t, q)
  ]
]

pull_in-why :
    (edges : List Edge) (keep : List String) (id : String)
    → elem id (pull_in edges keep) ≡ true
    → (elem id keep ≡ true)
      ⊎ ((e : Edge) × In e edges × (e.target ≡ id) × (elem e.source (pull_in edges keep) ≡ true))
unfolding pull_in
pull_in-why [] keep id h = inl h
pull_in-why (e ∷ edges) keep id h = elim (Bool-cases (elem e.source keep)) [
  | inl s ↦ elim (pull_in-why edges (e.target ∷ keep) id (ground arith)) [
    | inl k ↦ elim (Bool-cases (e.target == id)) [
      | inl hit ↦ inr (
        e,
        inl refl,
        (eq_iff e.target id).0 hit,
        rw (s) (pull_in-keeps edges (e.target ∷ keep) e.source (ground arith)),
      )
      | inr miss ↦ inl (ground arith)
    ]
    | inr (d, i, t, k) ↦ inr (d, inr i, t, rw (s) k)
  ]
  | inr s ↦ elim (pull_in-why edges keep id (ground arith)) [
    | inl k ↦ inl k
    | inr (d, i, t, k) ↦ inr (d, inr i, t, rw (s) k)
  ]
]

module _ {F : Type 0} where
  In-HasNode : (n : Node F) (nodes : List (Node F)) → In n nodes → HasNode n.id nodes
  In-HasNode n [] i = elim i [ ]
  In-HasNode n (m ∷ nodes) (inl p) = rw (p) (ground (arith, eq_iff n.id n.id))
  In-HasNode n (m ∷ nodes) (inr i) = ground (arith, In-HasNode n nodes i)

  -- If each edge of the full graph has both ends among its nodes, so has each edge of the scoped
  -- graph.
  pub scoped-IsClosed :
      (ns : String) (g : Graph F)
      → IsClosed g.nodes g.edges
      → IsClosed (namespace_snapshot ns g).nodes (namespace_snapshot ns g).edges
  unfolding namespace_snapshot
  scoped-IsClosed ns g h = IsClosed-keep_if (kept ns g) g.nodes g.edges h

  -- A node that the first loop selects, which is one of the namespace, the namespace's own or a
  -- cluster, stands in the scoped graph, and so does each node of the graph that an edge leads to
  -- from it.
  pub scoped-neighbour :
      (ns : String) (g : Graph F) (n : Node F) (e : Edge)
      → In n g.nodes
      → is_selected ns n ≡ true
      → In e g.edges
      → e.source ≡ n.id
      → HasNode e.target g.nodes
      → HasNode n.id (namespace_snapshot ns g).nodes
        × HasNode e.target (namespace_snapshot ns g).nodes
  unfolding namespace_snapshot kept
  scoped-neighbour ns g n e i s j src t =
      let sel = select-finds ns g.nodes [] n i s in
      (
        ground (
          arith,
          elem-keep_if n.id (kept ns g) g.nodes,
          pull_in-keeps g.edges (select ns g.nodes []) n.id sel,
          In-HasNode n g.nodes i,
        ),
        ground (
          arith,
          elem-keep_if e.target (kept ns g) g.nodes,
          pull_in-finds g.edges (select ns g.nodes []) e j (rw (src) sel),
        ),
      )

  -- Each node of the scoped graph has the ID of a node that the first loop selects, or is the
  -- target of an edge of the full graph from a kept ID.
  pub scoped-why :
      (ns : String) (g : Graph F) (id : String)
      → HasNode id (namespace_snapshot ns g).nodes
      → HasNode id g.nodes
        × (((n : Node F) × In n g.nodes × (is_selected ns n ≡ true) × (n.id ≡ id))
            ⊎ ((e : Edge) × In e g.edges × (e.target ≡ id) × (elem e.source (kept ns g) ≡ true)))
  unfolding namespace_snapshot kept
  scoped-why ns g id h =
      let split = elem-keep_if id (kept ns g) g.nodes in
      (
        ground (arith, split),
        elim (pull_in-why g.edges (select ns g.nodes []) id (ground (arith, split))) [
          | inl k ↦ elim (select-why ns g.nodes [] id k) [
            | inl bad ↦ absurd (ground (arith, bad))
            | inr found ↦ inl found
          ]
          | inr found ↦ inr found
        ],
      )

  -- A node that an edge leads to from a cluster stands in the scoped graph of every namespace,
  -- whatever its own namespace is.
  pub cluster-leaks :
      (ns : String) (g : Graph F) (n : Node F) (e : Edge)
      → In n g.nodes
      → n.kind ≡ "Cluster"
      → In e g.edges
      → e.source ≡ n.id
      → HasNode e.target g.nodes
      → HasNode e.target (namespace_snapshot ns g).nodes
  cluster-leaks ns g n e i k j src t =
      let selected : is_selected ns n ≡ true =
        unfold is_selected in ground (arith, eq_iff n.kind "Cluster") in
      (scoped-neighbour ns g n e i selected j src t).1
