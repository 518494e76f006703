-- ===== src/Collector/Build/Meta.antt =====
-- graph.go: `nodeGPU`, `nodeRoles` and `nodeTaints`, which describe a node, and a map's entry that is
-- set on a condition.
use pulsebox.Base.{
  String, Bool, true, ◌&&◌, ◌||◌, not, List, [], ◌∷◌, Option, none, some, if◌then◌else◌, ◌==◌,
  string_eq, concat, less_text, strip_prefix, join, contains_lower,
}
use pulsebox.Base.Dict.{Dict, lookup, put}
use pulsebox.Base.Sort.{sort}
use pulsebox.K8s.{Quantity, Taint, KubeNode}
use pulsebox.Topology.{text_at}

unfoldable pub put_if : Bool → String → String → Dict String String → Dict String String
unfolding put
put_if test k v m = if test then put k v m else m

-- The loop over the capacity, which ends at the first resource that is a GPU.
unfoldable pub gpu_capacity : Dict String Quantity → Option String
unfolding contains_lower
gpu_capacity [] = none
gpu_capacity ((res, q) ∷ rest) =
    if contains_lower "gpu" res && not q.is_zero then some q.text else gpu_capacity rest

-- `nodeGPU`, with its two results.
unfoldable pub node_gpu : KubeNode → Bool × String
unfolding gpu_capacity lookup
node_gpu n = elim (gpu_capacity n.capacity) [
  | some q ↦ (true, q)
  | none ↦ (
    not (text_at "accelerator" n.labels == "")
        || text_at "nvidia.com/gpu.present" n.labels == "true",
    "",
  )
]

role_of : String → List String
unfolding strip_prefix
role_of k = elim (strip_prefix "node-role.kubernetes.io/" k) [
  | none ↦ []
  | some r ↦ if r == "" then [] else r ∷ []
]

unfoldable pub roles_in : Dict String String → List String
unfolding role_of
roles_in [] = []
roles_in ((k, v) ∷ rest) = elim (role_of k) [ [] ↦ roles_in rest | r ∷ _ ↦ r ∷ roles_in rest ]

unfoldable pub node_roles : KubeNode → List String
unfolding roles_in sort
node_roles n = sort less_text (roles_in n.labels)

unfoldable pub taint_texts : List Taint → List String
taint_texts [] = []
taint_texts (t ∷ rest) = concat (t.key ∷ "=" ∷ t.value ∷ ":" ∷ t.effect ∷ []) ∷ taint_texts rest

unfoldable pub node_taints : KubeNode → String
unfolding taint_texts join
node_taints n = join "," (taint_texts n.taints)
