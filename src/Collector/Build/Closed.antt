-- ===== src/Collector/Build/Closed.antt =====
-- graph.go, `buildGraph`: the list of nodes against the keys of `exists`, from one stage to a later one.
use pulsebox.Base.{
  String, true, ◌||◌, List, [], ◌∷◌, ◌++◌, ◌≡◌, refl, arith, Option, none, some, string_eq, elem,
  map, ap, inl, inr,
}
use pulsebox.Base.Int.{ℤ}
use pulsebox.K8s.{KubePod}
use pulsebox.Health.{Result}
use pulsebox.Topology.{Node, node_id}
use pulsebox.Collector.Scope.Kept.{In}
use pulsebox.Collector.Build.{Build, add_node, add_edge, add_child, add_cluster_child}
use pulsebox.Collector.Build.Storage.{route_edges}
use pulsebox.Collector.Build.Workloads.{build_workload}
use pulsebox.Collector.Build.Pods.{claim_edges}

pub elem-append :
    (id : String) (xs ys : List String) → elem id (xs ++ ys) ≡ (elem id xs || elem id ys)
elem-append id [] ys = refl
elem-append id (x ∷ xs) ys = ground (arith, elem-append id xs ys)

pub In-append : {A : Type 0} (a : A) (xs ys : List A) → In a xs → In a (xs ++ ys)
In-append a [] ys i = elim i [ ]
In-append a (x ∷ xs) ys (inl e) = inl e
In-append a (x ∷ xs) ys (inr i) = inr (In-append a xs ys i)

pub In-behind : {A : Type 0} (a : A) (xs ys : List A) → In a ys → In a (xs ++ ys)
In-behind a [] ys i = i
In-behind a (x ∷ xs) ys i = inr (In-behind a xs ys i)

module _ {F : Type 0} where
  abbrev pub IsListed : Build F → Type 0
  IsListed b = b.exists ≡ map node_id b.nodes

  -- A later stage of a build.
  pub record Extends (b c : Build F) : Type 0 where
    pub listed : IsListed b → IsListed c
    pub keeps : (id : String) → elem id b.exists ≡ true → elem id c.exists ≡ true
    pub holds : (n : Node F) → In n b.nodes → In n c.nodes

  pub Extends-refl : (b : Build F) → Extends b b
  Extends-refl b = record { listed = λ h. h; keeps = λ id h. h; holds = λ n i. i }

  pub Extends-trans : (b c d : Build F) → Extends b c → Extends c d → Extends b d
  Extends-trans b c d p q = record {
    listed = λ h. q.listed (p.listed h);
    keeps = λ id h. q.keeps id (p.keeps id h);
    holds = λ n i. q.holds n (p.holds n i);
  }

  map-append-id :
      (xs : List (Node F)) (n : Node F) → map node_id (xs ++ n ∷ []) ≡ map node_id xs ++ n.id ∷ []
  map-append-id [] n = refl
  map-append-id (x ∷ xs) n = ap (λ r. x.id ∷ r) (map-append-id xs n)

  pub add_node-Extends : (n : Node F) (b c : Build F) → Extends b c → Extends b (add_node n c)
  unfolding add_node
  add_node-Extends n b c p = record {
    listed = λ h. rw (p.listed h, map-append-id c.nodes n) refl;
    keeps = λ id h. ground (arith, p.keeps id h, elem-append id c.exists (n.id ∷ []));
    holds = λ m i. In-append m c.nodes (n ∷ []) (p.holds m i);
  }

  pub elem-add_node : (n : Node F) (b : Build F) → elem n.id (add_node n b).exists ≡ true
  unfolding add_node
  elem-add_node n b =
      ground (arith, elem-append n.id b.exists (n.id ∷ []), string_eq.equal_iff n.id n.id)

  pub In-add_node : (n : Node F) (b : Build F) → In n (add_node n b).nodes
  unfolding add_node
  In-add_node n b = In-behind n b.nodes (n ∷ []) (inl refl)

  pub add_edge-Extends :
      (src dst kind : String) (b c : Build F) → Extends b c → Extends b (add_edge src dst kind c)
  unfolding add_edge
  add_edge-Extends src dst kind b c p = record {
    listed = p.listed;
    keeps = p.keeps;
    holds = p.holds;
  }

  pub add_child-Extends : (ns : String) (r : Result F) (b : Build F) → Extends b (add_child ns r b)
  unfolding add_child
  add_child-Extends ns r b = record { listed = λ h. h; keeps = λ id h. h; holds = λ n i. i }

  pub add_cluster_child-Extends : (r : Result F) (b : Build F) → Extends b (add_cluster_child r b)
  unfolding add_cluster_child
  add_cluster_child-Extends r b = record { listed = λ h. h; keeps = λ id h. h; holds = λ n i. i }

  pub route_edges-Extends :
      (src ns : String) (targets : List String) (b c : Build F)
      → Extends b c
      → Extends b (route_edges src ns targets c)
  unfolding route_edges
  route_edges-Extends src ns [] b c p = p
  route_edges-Extends src ns (t ∷ rest) b c p =
      route_edges-Extends src ns rest b _ (add_edge-Extends src _ "routes" b c p)

  pub claim_edges-Extends :
      (p : KubePod) (claims : List (Option String)) (b c : Build F)
      → Extends b c
      → Extends b (claim_edges p claims c)
  unfolding claim_edges
  claim_edges-Extends p [] b c e = e
  claim_edges-Extends p (none ∷ rest) b c e = claim_edges-Extends p rest b c e
  claim_edges-Extends p (some claim ∷ rest) b c e =
      claim_edges-Extends p rest b _ (add_edge-Extends _ _ "mounts" b c e)

  pub build_workload-Extends :
      (kind ns name : String) (res : Result F) (ready desired : ℤ) (b : Build F)
      → Extends b (build_workload kind ns name res ready desired b)
  unfolding build_workload
  build_workload-Extends kind ns name res ready desired b =
      add_edge-Extends _ _ "contains" b _ (add_node-Extends _ b _ (add_child-Extends ns res b))
