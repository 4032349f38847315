-- ===== src/Cluster/Workloads.antt =====
-- The Kubernetes objects of the engines, with the fields that the operator reads and writes.
use aitrigram.Base.{ℕ, String, List, Bool, Option, Bytes, Map}
use aitrigram.Api.Engine.{EnvVar, ResourceRequirements, Toleration}
use aitrigram.Storage.ReadOnly.{PersistentVolumeSpec}

-- corev1.PersistentVolume as it is made for an engine: its claim by namespace and name.
pub record EngineVolume : Type 0 where
  pub name : Bytes
  pub labels : Map String
  pub finalizers : List String
  pub spec : PersistentVolumeSpec
  pub claim : String × Bytes
  pub reclaim_policy : String

-- corev1.Node; of the allocatable resources the whole units, as extended resources are counted.
pub record Node : Type 0 where
  pub name : String
  pub labels : Map String
  pub allocatable : Map ℕ

-- A volume of a pod; `other` stands for a source that the operator does not touch.
pub data PodVolumeSource : Type 0 where
  claim : (name : Bytes) (read_only : Bool) → PodVolumeSource
  config_map : String → PodVolumeSource
  other : PodVolumeSource

pub record PodVolume : Type 0 where
  pub name : String
  pub source : PodVolumeSource

pub record PodMount : Type 0 where
  pub name : String
  pub mount_path : String
  pub read_only : Bool

-- The first container of a pod template; its port is the first of its ports.
pub record Container : Type 0 where
  pub image : String
  pub args : List String
  pub port : ℕ
  pub env : List EnvVar
  pub resources : ResourceRequirements
  pub mounts : List PodMount

-- The spec of a pod template.
pub record PodSpec : Type 0 where
  pub container : Container
  pub volumes : List PodVolume
  pub node_selector : Map String
  pub tolerations : List Toleration
  pub host_ipc : Bool

-- appsv1.Deployment; `ready_replicas` is of its status.
pub record Deployment : Type 0 where
  pub name : Bytes
  pub namespace : String
  pub owner : String
  pub labels : Map String
  pub selector : Map String
  pub template_labels : Map String
  pub replicas : Option ℕ
  pub pod : PodSpec
  pub ready_replicas : ℕ

-- corev1.Service, with its first port.
pub record Service : Type 0 where
  pub name : Bytes
  pub namespace : String
  pub owner : String
  pub labels : Map String
  pub selector : Map String
  pub port : ℕ
  pub target_port : ℕ

pub record ConfigMap : Type 0 where
  pub name : String
  pub namespace : String
  pub owner : String
  pub labels : Map String
  pub entries : Map Bytes

-- What is applied to the cluster for an engine.
pub data Manifest : Type 0 where
  of_config_map : ConfigMap → Manifest
  of_deployment : Deployment → Manifest
  of_service : Service → Manifest
