-- ===== src/Api/Repository.antt =====
-- api/v1/modelrepository_types.go
use aitrigram.Base.{String, List, Bool, true, false, Option, Map}
use aitrigram.Api.{Condition, Metadata}

pub record ModelStorage : Type 0 where
  pub size : String
  pub mount_path : String
  pub storage_class : String

pub record RevisionReference : Type 0 where
  pub name : String
  pub ref : String

abbrev pub hugging_face : String
hugging_face = "huggingface"

abbrev pub ollama : String
ollama = "ollama"

pub record ModelSource : Type 0 where
  pub origin : String
  pub model_id : String
  pub revision : String
  pub revisions : List RevisionReference
  pub hf_token_secret : String
  pub hf_token_secret_key : String

pub record ModelRepositorySpec : Type 0 where
  pub model_name : String
  pub source : ModelSource
  pub storage : ModelStorage
  pub auto_download : Bool
  pub download_image : String
  pub download_scripts : String
  pub delete_scripts : String
  pub node_selector : Map String

-- `unset` is the empty string, the value before the first status update.
pub data DownloadPhase : Type 0 where
  unset pending downloading ready failed deprecated : DownloadPhase

abbrev pub is_ready : DownloadPhase → Bool
is_ready ready = true
is_ready _ = false

abbrev pub is_downloading : DownloadPhase → Bool
is_downloading downloading = true
is_downloading _ = false

pub record RevisionStatus : Type 0 where
  pub name : String
  pub commit_hash : String
  pub status : DownloadPhase

pub record BackendReference : Type 0 where
  pub type : String
  pub details : Map String

pub record StorageStatus : Type 0 where
  pub storage_class : String
  pub access_mode : String
  pub volume_mode : String
  pub backend_ref : Option BackendReference
  pub bound_node_name : String
  pub capacity : String

pub record ModelRepositoryStatus : Type 0 where
  pub phase : DownloadPhase
  pub conditions : List Condition
  pub storage : Option StorageStatus
  pub available_revisions : List RevisionStatus
  pub referenced_engines : String

-- Cluster-scoped: the namespace of the metadata is empty.
pub record ModelRepository : Type 0 where
  pub metadata : Metadata
  pub open metadata use *
  pub spec : ModelRepositorySpec
  pub status : ModelRepositoryStatus

abbrev pub condition_ready : String
condition_ready = "Ready"

abbrev pub condition_storage_ready : String
condition_storage_ready = "StorageReady"

abbrev pub reason_storage_provider_failed : String
reason_storage_provider_failed = "StorageProviderFailed"

abbrev pub reason_validation_failed : String
reason_validation_failed = "ValidationFailed"

abbrev pub reason_provision_failed : String
reason_provision_failed = "ProvisionFailed"

abbrev pub reason_storage_provisioned : String
reason_storage_provisioned = "StorageProvisioned"

abbrev pub reason_download_failed : String
reason_download_failed = "DownloadFailed"

abbrev pub reason_all_revisions_ready : String
reason_all_revisions_ready = "AllRevisionsReady"

abbrev pub reason_downloading : String
reason_downloading = "Downloading"

abbrev pub reason_deletion_blocked : String
reason_deletion_blocked = "DeletionBlocked"
