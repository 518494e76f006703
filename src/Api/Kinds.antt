-- ===== src/Api/Kinds.antt =====
-- api.go, `canonicalKind`: the kind that it names is the one that `GetResource` looks for.
use pulsebox.Base.{String, true, ◌||◌, ◌≡◌, refl, arith, string_eq}
use pulsebox.Collector.Access.Resources.{lowers_to}
use pulsebox.Collector.Access.Resources.Found.{lowers-other}
use pulsebox.Api.{canonical_kind}

-- A text that is lowered to `word` is lowered to none of the words before it in `canonical_kind`.
module _ (kind : String) where
  pub canonical-pod : lowers_to kind "pod" ≡ true → canonical_kind kind ≡ "Pod"
  unfolding canonical_kind
  canonical-pod e =
      rw
        (
          lowers-other kind "pod" "pvc" refl e,
          lowers-other kind "pod" "persistentvolumeclaim" refl e,
          lowers-other kind "pod" "pv" refl e,
          lowers-other kind "pod" "persistentvolume" refl e,
          e,
          canonical_kind,
        )
        refl

  pub canonical-node : lowers_to kind "node" ≡ true → canonical_kind kind ≡ "Node"
  unfolding canonical_kind
  canonical-node e =
      rw
        (
          lowers-other kind "node" "pvc" refl e,
          lowers-other kind "node" "persistentvolumeclaim" refl e,
          lowers-other kind "node" "pv" refl e,
          lowers-other kind "node" "persistentvolume" refl e,
          lowers-other kind "node" "pod" refl e,
          e,
          canonical_kind,
        )
        refl

  pub canonical-namespace : lowers_to kind "namespace" ≡ true → canonical_kind kind ≡ "Namespace"
  unfolding canonical_kind
  canonical-namespace e =
      rw
        (
          lowers-other kind "namespace" "pvc" refl e,
          lowers-other kind "namespace" "persistentvolumeclaim" refl e,
          lowers-other kind "namespace" "pv" refl e,
          lowers-other kind "namespace" "persistentvolume" refl e,
          lowers-other kind "namespace" "pod" refl e,
          lowers-other kind "namespace" "node" refl e,
          e,
          canonical_kind,
        )
        refl

  pub canonical-deployment : lowers_to kind "deployment" ≡ true → canonical_kind kind ≡ "Deployment"
  unfolding canonical_kind
  canonical-deployment e =
      rw
        (
          lowers-other kind "deployment" "pvc" refl e,
          lowers-other kind "deployment" "persistentvolumeclaim" refl e,
          lowers-other kind "deployment" "pv" refl e,
          lowers-other kind "deployment" "persistentvolume" refl e,
          lowers-other kind "deployment" "pod" refl e,
          lowers-other kind "deployment" "node" refl e,
          lowers-other kind "deployment" "namespace" refl e,
          e,
          canonical_kind,
        )
        refl

  pub canonical-stateful_set :
      lowers_to kind "statefulset" ≡ true → canonical_kind kind ≡ "StatefulSet"
  unfolding canonical_kind
  canonical-stateful_set e =
      rw
        (
          lowers-other kind "statefulset" "pvc" refl e,
          lowers-other kind "statefulset" "persistentvolumeclaim" refl e,
          lowers-other kind "statefulset" "pv" refl e,
          lowers-other kind "statefulset" "persistentvolume" refl e,
          lowers-other kind "statefulset" "pod" refl e,
          lowers-other kind "statefulset" "node" refl e,
          lowers-other kind "statefulset" "namespace" refl e,
          lowers-other kind "statefulset" "deployment" refl e,
          e,
          canonical_kind,
        )
        refl

  pub canonical-daemon_set : lowers_to kind "daemonset" ≡ true → canonical_kind kind ≡ "DaemonSet"
  unfolding canonical_kind
  canonical-daemon_set e =
      rw
        (
          lowers-other kind "daemonset" "pvc" refl e,
          lowers-other kind "daemonset" "persistentvolumeclaim" refl e,
          lowers-other kind "daemonset" "pv" refl e,
          lowers-other kind "daemonset" "persistentvolume" refl e,
          lowers-other kind "daemonset" "pod" refl e,
          lowers-other kind "daemonset" "node" refl e,
          lowers-other kind "daemonset" "namespace" refl e,
          lowers-other kind "daemonset" "deployment" refl e,
          lowers-other kind "daemonset" "statefulset" refl e,
          e,
          canonical_kind,
        )
        refl

  pub canonical-service : lowers_to kind "service" ≡ true → canonical_kind kind ≡ "Service"
  unfolding canonical_kind
  canonical-service e =
      rw
        (
          lowers-other kind "service" "pvc" refl e,
          lowers-other kind "service" "persistentvolumeclaim" refl e,
          lowers-other kind "service" "pv" refl e,
          lowers-other kind "service" "persistentvolume" refl e,
          lowers-other kind "service" "pod" refl e,
          lowers-other kind "service" "node" refl e,
          lowers-other kind "service" "namespace" refl e,
          lowers-other kind "service" "deployment" refl e,
          lowers-other kind "service" "statefulset" refl e,
          lowers-other kind "service" "daemonset" refl e,
          e,
          canonical_kind,
        )
        refl

  pub canonical-claim :
      (lowers_to kind "persistentvolumeclaim" || lowers_to kind "pvc") ≡ true
      → canonical_kind kind ≡ "PersistentVolumeClaim"
  unfolding canonical_kind
  canonical-claim e = ground arith

  pub canonical-volume :
      (lowers_to kind "persistentvolume" || lowers_to kind "pv") ≡ true
      → canonical_kind kind ≡ "PersistentVolume"
  unfolding canonical_kind
  canonical-volume e = ground (
    arith,
    lowers-other kind "persistentvolume" "pvc" refl,
    lowers-other kind "persistentvolume" "persistentvolumeclaim" refl,
    lowers-other kind "pv" "pvc" refl,
    lowers-other kind "pv" "persistentvolumeclaim" refl,
  )
