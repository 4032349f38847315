-- ===== src/Cluster/Objects.antt =====
-- The Kubernetes objects that the controllers read and write, with the fields that they touch.
use aitrigram.Base.{ℕ, String, List, Option, Bytes, Map}
use aitrigram.Api.Engine.{EnvVar}
use aitrigram.Storage.Discovery.{AccessMode}
use aitrigram.Storage.Backend.{NodeAffinity}

-- A volume of a pod that mounts a claim, and where a container mounts it.
pub record ClaimVolume : Type 0 where
  pub name : String
  pub claim_name : String

pub record VolumeMount : Type 0 where
  pub name : String
  pub mount_path : String

-- batchv1.Job; the container is the first one of the pod template.
pub record Job : Type 0 where
  pub name : Bytes
  pub namespace : String
  pub labels : Map String
  pub template_labels : Map String
  pub image : String
  pub args : List String
  pub env : List EnvVar
  pub volume_mounts : List VolumeMount
  pub volumes : List ClaimVolume
  pub node_selector : Map String
  pub node_affinity : NodeAffinity
  pub owner : String
  pub succeeded : ℕ
  pub failed : ℕ

pub data ClaimPhase : Type 0 where
  claim_pending claim_bound claim_lost : ClaimPhase

-- corev1.PersistentVolumeClaim; `capacity` is the entry "storage" of status.capacity.
pub record PersistentVolumeClaim : Type 0 where
  pub name : Bytes
  pub namespace : String
  pub labels : Map String
  pub finalizers : List String
  pub access_modes : List AccessMode
  pub storage_class : Option String
  pub requested : String
  pub volume_name : Bytes
  pub phase : ClaimPhase
  pub capacity : Option String
