-- ===== src/Collector/Build/Scores.antt =====
-- graph.go: the scores of the nodes that `buildGraph` adds and of the results that it rolls up.
use pulsebox.Base.{
  ℕ, suc, ◌≤◌, String, List, [], ◌∷◌, ◌++◌, ◌≡◌, arith, Option, none, some, if◌then◌else◌, ◌==◌,
  string_eq, All, Bool-cases, inl, inr,
}
use pulsebox.Base.Int.{ℤ}
use pulsebox.Base.Dict.{Dict, lookup, put, lookup-put}
use pulsebox.Base.Float.{Float, InUnit}
use pulsebox.K8s.{KubePod}
use pulsebox.Health.{Result}
use pulsebox.Health.Rollup.Verdict.{known}
use pulsebox.Topology.{Node}
use pulsebox.Collector.Build.{
  Build, new_build, add_node, add_edge, children_of, add_child, add_cluster_child, scored_node,
}
use pulsebox.Collector.Build.Storage.{route_edges}
use pulsebox.Collector.Build.Workloads.{workload_node, build_workload}
use pulsebox.Collector.Build.Pods.{claim_edges}

pub All-append :
    {A : Type 0} (P : A → Type 0) (xs : List A) (x : A) → All P xs → P x → All P (xs ++ x ∷ [])
All-append P [] x h p = (p, tt)
All-append P (y ∷ ys) x h p = (h.0, All-append P ys x h.1 p)

module _ {F : Type 0} ⦃fl : Float F⦄ where
  abbrev pub AllScored : List (Result F) → Type 0
  AllScored rs = All (λ r. InUnit r.score) rs

  -- Every score is from 0 to 1, and no list of results has more than `k` known ones.
  pub record ScoresFit (k : ℕ) (b : Build F) : Type 0 where
    pub nodes : All (λ n. InUnit n.score) b.nodes
    pub children : (ns : String) → AllScored (children_of ns b.ns_children)
    pub cluster : AllScored b.cluster_children
    pub few_children : (ns : String) → known (children_of ns b.ns_children) ≤ k
    pub few_cluster : known b.cluster_children ≤ k

  known-append-le : (rs : List (Result F)) (r : Result F) → known (rs ++ r ∷ []) ≤ suc (known rs)
  known-append-le [] r = ground arith
  known-append-le (q ∷ rs) r = ground (arith, known-append-le rs r)

  pub new_build-ScoresFit : ScoresFit 0 new_build
  unfolding new_build children_of lookup
  new_build-ScoresFit = record {
    nodes = tt;
    children = λ ns. tt;
    cluster = tt;
    few_children = λ ns. omega arith;
    few_cluster = omega arith;
  }

  pub add_node-ScoresFit :
      (n : Node F) (k : ℕ) (b : Build F)
      → InUnit n.score
      → ScoresFit k b
      → ScoresFit k (add_node n b)
  unfolding add_node
  add_node-ScoresFit n k b u f = record {
    nodes = All-append (λ m. InUnit m.score) b.nodes n f.nodes u;
    children = f.children;
    cluster = f.cluster;
    few_children = f.few_children;
    few_cluster = f.few_cluster;
  }

  pub add_edge-ScoresFit :
      (src dst kind : String) (k : ℕ) (b : Build F)
      → ScoresFit k b
      → ScoresFit k (add_edge src dst kind b)
  unfolding add_edge
  add_edge-ScoresFit src dst kind k b f = record {
    nodes = f.nodes;
    children = f.children;
    cluster = f.cluster;
    few_children = f.few_children;
    few_cluster = f.few_cluster;
  }

  children_of-add :
      (ns j : String) (r : Result F) (m : Dict String (List (Result F)))
      → children_of j (put ns (children_of ns m ++ r ∷ []) m)
        ≡ (if ns == j then children_of ns m ++ r ∷ [] else children_of j m)
  unfolding children_of
  children_of-add ns j r m =
      let more : List (Result F) = children_of ns m ++ r ∷ [] in
      ground (arith, lookup-put ns j more m)

  pub add_child-ScoresFit :
      (ns : String) (r : Result F) (k : ℕ) (b : Build F)
      → InUnit r.score
      → ScoresFit k b
      → ScoresFit (suc k) (add_child ns r b)
  unfolding add_child
  add_child-ScoresFit ns r k b u f = record {
    nodes = f.nodes;
    children = λ j. rw (children_of-add ns j r b.ns_children) (elim (Bool-cases (ns == j)) [
      | inl e ↦
          rw e (All-append (λ s. InUnit s.score) (children_of ns b.ns_children) r (f.children ns) u)
      | inr e ↦ rw e (f.children j)
    ]);
    cluster = f.cluster;
    few_children = λ j. rw (children_of-add ns j r b.ns_children) (elim (Bool-cases (ns == j)) [
      | inl e ↦
          rw e (omega (arith, known-append-le (children_of ns b.ns_children) r, f.few_children ns))
      | inr e ↦ rw e (omega (arith, f.few_children j))
    ]);
    few_cluster = omega (arith, f.few_cluster);
  }

  pub add_cluster_child-ScoresFit :
      (r : Result F) (k : ℕ) (b : Build F)
      → InUnit r.score
      → ScoresFit k b
      → ScoresFit (suc k) (add_cluster_child r b)
  unfolding add_cluster_child
  add_cluster_child-ScoresFit r k b u f = record {
    nodes = f.nodes;
    children = f.children;
    cluster = All-append (λ s. InUnit s.score) b.cluster_children r f.cluster u;
    few_children = λ j. omega (arith, f.few_children j);
    few_cluster = omega (arith, known-append-le b.cluster_children r, f.few_cluster);
  }

  pub route_edges-ScoresFit :
      (src ns : String) (targets : List String) (k : ℕ) (b : Build F)
      → ScoresFit k b
      → ScoresFit k (route_edges src ns targets b)
  unfolding route_edges
  route_edges-ScoresFit src ns [] k b f = f
  route_edges-ScoresFit src ns (t ∷ rest) k b f =
      route_edges-ScoresFit src ns rest k _ (add_edge-ScoresFit src _ "routes" k b f)

  pub claim_edges-ScoresFit :
      (p : KubePod) (claims : List (Option String)) (k : ℕ) (b : Build F)
      → ScoresFit k b
      → ScoresFit k (claim_edges p claims b)
  unfolding claim_edges
  claim_edges-ScoresFit p [] k b f = f
  claim_edges-ScoresFit p (none ∷ rest) k b f = claim_edges-ScoresFit p rest k b f
  claim_edges-ScoresFit p (some claim ∷ rest) k b f =
      claim_edges-ScoresFit p rest k _ (add_edge-ScoresFit _ _ "mounts" k b f)

  pub build_workload-ScoresFit :
      (kind ns name : String) (res : Result F) (ready desired : ℤ) (k : ℕ) (b : Build F)
      → InUnit res.score
      → ScoresFit k b
      → ScoresFit (suc k) (build_workload kind ns name res ready desired b)
  unfolding build_workload workload_node scored_node
  build_workload-ScoresFit kind ns name res ready desired k b u f =
      add_edge-ScoresFit _ _ "contains" (suc k) _
        (add_node-ScoresFit _ (suc k) _ u (add_child-ScoresFit ns res k b u f))
