-- ===== src/K8s.antt =====
-- The Kubernetes API objects, as far as Pulsebox reads them. The types are those of k8s.io/api; a
-- string type of theirs is a text here, a pointer is an option, and of a resource.Quantity only its
-- text and whether it is zero are read.
use pulsebox.Base.{String, Bool, Option, List}
use pulsebox.Base.Int.{ℤ, Time}
use pulsebox.Base.Dict.{Dict}

pub record Quantity : Type 0 where
  pub is_zero : Bool
  pub text : String

pub record NodeCondition : Type 0 where
  pub ctype : String
  pub status : String

pub record Taint : Type 0 where
  pub key : String
  pub value : String
  pub effect : String

pub record KubeNode : Type 0 where
  pub name : String
  pub labels : Dict String String
  pub unschedulable : Bool
  pub taints : List Taint
  pub kubelet_version : String
  pub conditions : List NodeCondition
  pub capacity : Dict String Quantity

pub record Terminated : Type 0 where
  pub exit_code : ℤ
  pub reason : String

-- `waiting` holds the reason of `State.Waiting`.
pub record ContainerStatus : Type 0 where
  pub name : String
  pub ready : Bool
  pub waiting : Option String
  pub terminated : Option Terminated
  pub restart_count : ℤ

pub record OwnerReference : Type 0 where
  pub kind : String
  pub name : String

-- `images` are those of `Spec.Containers`; `claims` has an entry for each volume, with the claim's
-- name where the volume is a claim.
pub record KubePod : Type 0 where
  pub namespace : String
  pub name : String
  pub owners : List OwnerReference
  pub phase : String
  pub reason : String
  pub container_statuses : List ContainerStatus
  pub node_name : String
  pub images : List String
  pub claims : List (Option String)

pub record KubeDeployment : Type 0 where
  pub namespace : String
  pub name : String
  pub replicas : Option ℤ
  pub ready_replicas : ℤ
  pub available_replicas : ℤ

pub record KubeStatefulSet : Type 0 where
  pub namespace : String
  pub name : String
  pub replicas : Option ℤ
  pub ready_replicas : ℤ
  pub current_replicas : ℤ

pub record KubeDaemonSet : Type 0 where
  pub namespace : String
  pub name : String
  pub desired_number_scheduled : ℤ
  pub number_ready : ℤ
  pub number_available : ℤ

pub record KubeVolume : Type 0 where
  pub name : String
  pub phase : String
  pub storage_class : String
  pub capacity : Dict String Quantity

pub record KubeClaim : Type 0 where
  pub namespace : String
  pub name : String
  pub phase : String
  pub created_at : Time
  pub storage_class : Option String
  pub capacity : Dict String Quantity
  pub volume_name : String

pub record KubeService : Type 0 where
  pub namespace : String
  pub name : String
  pub selector : Dict String String
  pub stype : String
  pub cluster_ip : String

-- An address of an endpoint: its target, where it has one.
pub record TargetRef : Type 0 where
  pub kind : String
  pub name : String

pub record EndpointSubset : Type 0 where
  pub addresses : List (Option TargetRef)
  pub not_ready_addresses : List (Option TargetRef)

pub record KubeEndpoints : Type 0 where
  pub namespace : String
  pub name : String
  pub subsets : List EndpointSubset

pub record KubeReplicaSet : Type 0 where
  pub namespace : String
  pub name : String
  pub owners : List OwnerReference

pub record KubeNamespace : Type 0 where
  pub name : String
  pub phase : String
