-- ===== src/Collector/Build/Routes.antt =====
-- graph.go: the count and the pods that `endpointsFor` returns.
use pulsebox.Base.{
  ℕ, ◌+◌, String, false, List, [], ◌∷◌, ◌++◌, Option, none, some, ◌≡◌, refl, arith, string_eq, elem,
  length, eq_iff, any, Bool, true, ap, ◌==◌, ◌&&◌, ◌||◌, inl, inr, Option-cases,
}
use pulsebox.K8s.{TargetRef, EndpointSubset, KubeEndpoints}
use pulsebox.Collector.Build.Lookups.{find_endpoints, collect, collect_subsets, endpoints_for}
use pulsebox.Collector.Build.Kept.{Once}
use pulsebox.Collector.Build.Closed.{elem-append}

-- The ready addresses of all subsets.
abbrev pub ready_addresses : List EndpointSubset → ℕ
ready_addresses [] = 0
ready_addresses (s ∷ rest) = length s.addresses + ready_addresses rest

Once-append : (xs : List String) (x : String) → Once xs → elem x xs ≡ false → Once (xs ++ x ∷ [])
Once-append [] x o h = (refl, tt)
Once-append (y ∷ ys) x o h =
    ground (arith, Once-append ys x, elem-append y ys (x ∷ []), eq_iff x y, eq_iff y x)

-- An address stands for the pod of a name.
abbrev pub refers : String → Option TargetRef → Bool
refers p none = false
refers p (some t) = t.kind == "Pod" && t.name == p

-- Some address of some subset, ready or not, stands for the pod.
abbrev pub is_backed : String → List EndpointSubset → Bool
is_backed p [] = false
is_backed p (s ∷ rest) =
    (any (refers p) s.addresses || any (refers p) s.not_ready_addresses) || is_backed p rest

elem-collect :
    (p : String) (addrs : List (Option TargetRef)) (names : List String)
    → elem p (collect addrs names) ≡ (elem p names || any (refers p) addrs)
unfolding collect
elem-collect p [] names = ground arith
elem-collect p (none ∷ rest) names = elem-collect p rest names
elem-collect p (some t ∷ rest) names = ground (
  arith,
  elem-collect p rest names,
  elem-collect p rest (names ++ t.name ∷ []),
  elem-append p names (t.name ∷ []),
  λ (e : (t.name == p) ≡ true). ap (λ z. elem z names) ((eq_iff t.name p).0 e),
  eq_iff p t.name,
  eq_iff t.name p,
)

elem-collect_subsets :
    (p : String) (ss : List EndpointSubset) (ready : ℕ) (names : List String)
    → elem p (collect_subsets ss ready names).1 ≡ (elem p names || is_backed p ss)
unfolding collect_subsets
elem-collect_subsets p [] ready names = ground arith
elem-collect_subsets p (s ∷ rest) ready names = ground (
  arith,
  elem-collect_subsets p rest (ready + length s.addresses)
      (collect s.not_ready_addresses (collect s.addresses names)),
  elem-collect p s.not_ready_addresses (collect s.addresses names),
  elem-collect p s.addresses names,
)

collect-Once :
    (addrs : List (Option TargetRef)) (names : List String)
    → Once names
    → Once (collect addrs names)
unfolding collect
collect-Once [] names o = o
collect-Once (none ∷ rest) names o = collect-Once rest names o
collect-Once (some t ∷ rest) names o = ground (
  arith,
  Once-append names t.name,
  collect-Once rest names,
  collect-Once rest (names ++ t.name ∷ []),
)

collect_subsets_lem :
    (ss : List EndpointSubset) (ready : ℕ) (names : List String)
    → Once names
    → ((collect_subsets ss ready names).0 ≡ ready + ready_addresses ss)
      × Once (collect_subsets ss ready names).1
unfolding collect_subsets
collect_subsets_lem [] ready names o = (omega arith, o)
collect_subsets_lem (s ∷ rest) ready names o =
    let found = collect s.not_ready_addresses (collect s.addresses names) in
    let step =
      collect_subsets_lem rest (ready + length s.addresses) found
        (collect-Once s.not_ready_addresses _ (collect-Once s.addresses names o)) in
    (omega (arith, step.0), step.1)

-- The number of ready addresses of a service: that of its endpoints, and 0 where there are none.
abbrev pub ready_of : Option KubeEndpoints → ℕ
ready_of none = 0
ready_of (some ep) = ready_addresses ep.subsets

-- Whether a pod backs a service, by the service's endpoints.
abbrev pub backs : String → Option KubeEndpoints → Bool
backs p none = false
backs p (some ep) = is_backed p ep.subsets

-- For a service, `endpointsFor` counts the ready addresses of all subsets of its endpoints, none if
-- there are no endpoints, and names
-- each pod that an address of them, ready or not, stands for once, and no other name.
pub endpoints_for-Once :
    (eps : List KubeEndpoints) (ns name : String)
    → ((endpoints_for eps ns name).0 ≡ ready_of (find_endpoints ns name eps))
      × Once (endpoints_for eps ns name).1
      × ((p : String) → elem p (endpoints_for eps ns name).1 ≡ backs p (find_endpoints ns name eps))
unfolding endpoints_for
endpoints_for-Once eps ns name = elim (Option-cases (find_endpoints ns name eps)) [
  | inl e ↦ rw (e, endpoints_for) (refl, tt, λ p. refl)
  | inr (ep, e) ↦
      let all = collect_subsets_lem ep.subsets 0 [] tt in
      rw (e, endpoints_for)
        (omega (arith, all.0), all.1, λ p. elem-collect_subsets p ep.subsets 0 [])
]
