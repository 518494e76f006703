-- ===== src/Collector/Access/Known.antt =====
-- graph.go, `buildGraph`: where the nodes come from that each loop adds.
use pulsebox.Base.{
  String, false, List, [], ◌∷◌, ◌++◌, ◌≡◌, refl, ◌==◌, string_eq, All, Option, none, some,
  Bool-cases, inl, inr,
}
use pulsebox.Base.Int.{Time, Duration}
use pulsebox.Base.Dict.{Dict}
use pulsebox.Base.Float.{Float}
use pulsebox.K8s.{KubeNode, KubeClaim, KubeService, KubeEndpoints, KubePod, KubeReplicaSet}
use pulsebox.Health.{Result}
use pulsebox.Topology.{Node}
use pulsebox.Collector.Scope.Kept.{In}
use pulsebox.Collector.Build.{
  Build, object_id, cluster_id, scored_node, add_node, add_edge, add_child, add_cluster_child,
}
use pulsebox.Collector.Build.Storage.{build_node, build_claim, build_service, route_edges}
use pulsebox.Collector.Build.Lookups.{endpoints_for}
use pulsebox.Collector.Build.Pods.{PodsBuild, claim_edges, link_pod, add_pod, build_pod, build_pods}
use pulsebox.Collector.Build.Roots.{cluster_scope, rolled_node, build_namespace}
use pulsebox.Collector.Build.Scores.{All-append}
use pulsebox.Collector.Access.{Collector}
use pulsebox.Collector.Access.Resources.{
  Object, pod_object, node_object, service_object, claim_object,
}
use pulsebox.Collector.Access.Resources.Found.{object_kind, object_name, object_namespace, IsHeld}
use pulsebox.Collector.Access.Shown.{IsNodeOf}

module _ {F : Type 0} where
  -- Where a node comes from.
  pub data Origin (c : Collector F) (n : Node F) : Type 0 where
    of_object : (o : Object) → IsHeld c o → IsNodeOf o n → Origin c n
    of_namespace :
        cluster_scope c.cfg ≡ false → n.kind ≡ "Namespace" → n.name ≡ c.cfg.namespace → Origin c n
    of_cluster : n.id ≡ cluster_id → n.kind ≡ "Cluster" → Origin c n

  abbrev pub Known : Collector F → Build F → Type 0
  Known c b = All (Origin c) b.nodes

  -- A loop over a cache whose body keeps what is known of the nodes.
  pub loop-Known :
      {A : Type 0} (c : Collector F) (body : A → Build F → Build F)
      (loop : List A → Build F → Build F) (xs : List A) (b : Build F)
      → ((y : A) (ys : List A) (b : Build F) → loop (y ∷ ys) b ≡ loop ys (body y b))
      → ((b : Build F) → loop [] b ≡ b)
      → ((y : A) (b : Build F) → In y xs → Known c b → Known c (body y b))
      → Known c b
      → Known c (loop xs b)
  loop-Known c body loop [] b cons nil keeps k = rw (nil b) k
  loop-Known c body loop (y ∷ ys) b cons nil keeps k = rw (cons y ys b) (
      loop-Known c body loop ys (body y b) cons nil (λ z b i. keeps z b (inr i))
        (keeps y b (inl refl) k))

  pub added-Known :
      (c : Collector F) (o : Object) (r : Result F) (meta : Dict String String)
      (nodes : List (Node F))
      → IsHeld c o
      → All (Origin c) nodes
      → All
          (Origin c)
          (nodes ++ scored_node (object_kind o) (object_namespace o) (object_name o) r meta ∷ [])
  unfolding scored_node
  added-Known c o r meta nodes held k = All-append (Origin c) nodes _ k (
      of_object o held
        (record { id_eq = refl; kind_eq = refl; namespace_eq = refl; name_eq = refl }))

  route_edges-nodes :
      (src ns : String) (targets : List String) (b : Build F)
      → (route_edges src ns targets b).nodes ≡ b.nodes
  unfolding route_edges add_edge
  route_edges-nodes src ns [] b = refl
  route_edges-nodes src ns (t ∷ rest) b = route_edges-nodes src ns rest _

  claim_edges-nodes :
      (p : KubePod) (claims : List (Option String)) (b : Build F)
      → (claim_edges p claims b).nodes ≡ b.nodes
  unfolding claim_edges add_edge
  claim_edges-nodes p [] b = refl
  claim_edges-nodes p (none ∷ rest) b = claim_edges-nodes p rest b
  claim_edges-nodes p (some claim ∷ rest) b = claim_edges-nodes p rest _

  link_pod-nodes :
      (sets : List KubeReplicaSet) (p : KubePod) (b : Build F) → (link_pod sets p b).nodes ≡ b.nodes
  unfolding link_pod add_edge
  link_pod-nodes sets p b = elim (Bool-cases (p.node_name == "")) [
    | inl e ↦ rw (e, link_pod) (claim_edges-nodes p p.claims _)
    | inr e ↦ rw (e, link_pod) (claim_edges-nodes p p.claims _)
  ]

module _ {F : Type 0} ⦃fl : Float F⦄ (c : Collector F) where
  pub node-Known :
      (n : KubeNode) (b : Build F) → IsHeld c (node_object n) → Known c b → Known c (build_node n b)
  unfolding build_node add_edge add_node add_cluster_child
  node-Known n b h k = added-Known c (node_object n) _ _ _ h k

  pub claim-Known :
      (now : Time) (grace : Duration) (p : KubeClaim) (b : Build F)
      → IsHeld c (claim_object p)
      → Known c b
      → Known c (build_claim now grace p b)
  unfolding build_claim add_edge add_node add_child
  claim-Known now grace p b h k = elim (Bool-cases (p.volume_name == "")) [
    | inl e ↦ rw (e, build_claim) (added-Known c (claim_object p) _ _ _ h k)
    | inr e ↦ rw (e, build_claim) (added-Known c (claim_object p) _ _ _ h k)
  ]

  pub service-Known :
      (eps : List KubeEndpoints) (s : KubeService) (b : Build F)
      → IsHeld c (service_object s)
      → Known c b
      → Known c (build_service eps s b)
  unfolding build_service add_edge add_node add_child
  service-Known eps s b h k =
      rw
        (route_edges-nodes (object_id "Service" s.namespace s.name) s.namespace
          (endpoints_for eps s.namespace s.name).1)
        (added-Known c (service_object s) _ _ _ h k)

  pod-Known :
      (sets : List KubeReplicaSet) (now : Time) (p : KubePod) (s : PodsBuild F)
      → IsHeld c (pod_object p)
      → Known c s.build
      → Known c (build_pod sets now p s).build
  unfolding build_pod add_pod add_node add_child
  pod-Known sets now p s h k = rw (link_pod-nodes sets p) (added-Known c (pod_object p) _ _ _ h k)

  pub namespace-Known :
      (name : String) (meta : Dict String String) (b : Build F)
      → ((n : Node F)
          → n.id ≡ object_id "Namespace" "" name
          → n.kind ≡ "Namespace"
          → n.namespace ≡ ""
          → n.name ≡ name
          → Origin c n)
      → Known c b
      → Known c (build_namespace name meta b)
  unfolding build_namespace rolled_node add_edge add_node add_cluster_child
  namespace-Known name meta b origin k =
      All-append (Origin c) b.nodes _ k (origin _ refl refl refl refl)

  pub pods-Known :
      (sets : List KubeReplicaSet) (now : Time) (ps : List KubePod) (s : PodsBuild F)
      → ((p : KubePod) → In p ps → IsHeld c (pod_object p))
      → Known c s.build
      → Known c (build_pods sets now ps s).build
  unfolding build_pods
  pods-Known sets now [] s held k = k
  pods-Known sets now (p ∷ ps) s held k =
      pods-Known sets now ps (build_pod sets now p s) (λ q i. held q (inr i))
        (pod-Known sets now p s (held p (inl refl)) k)
