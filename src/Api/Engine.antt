-- ===== src/Api/Engine.antt =====
-- api/v1/llmengine_types.go
use aitrigram.Base.{ℕ, String, List, Bool, Option, Map}
use aitrigram.Api.{Condition, Metadata}

abbrev pub engine_ollama : String
engine_ollama = "ollama"

abbrev pub engine_vllm : String
engine_vllm = "vllm"

pub record ModelReference : Type 0 where
  pub name : String
  pub revision : String
  pub update_policy : String

-- A toleration of corev1, with the fields that the operator sets.
pub record Toleration : Type 0 where
  pub key : String
  pub operator : String
  pub effect : String

-- A count of GPUs is a natural number here: the schema's minimum is one, so that the API server stores
-- no negative count.
pub record GpuConfig : Type 0 where
  pub enabled : Bool
  pub count : ℕ
  pub type : String
  pub node_selector : Map String
  pub tolerations : List Toleration

-- An environment variable of corev1: a plain value, or a key of a secret.
pub data EnvSource : Type 0 where
  value : String → EnvSource
  secret_key : String → String → EnvSource

pub record EnvVar : Type 0 where
  pub name : String
  pub source : EnvSource

-- corev1.ResourceRequirements, a quantity as its text
pub record ResourceRequirements : Type 0 where
  pub limits : Map String
  pub requests : Map String

pub record LlmEngineSpec : Type 0 where
  pub engine_type : String
  pub model_refs : List ModelReference
  pub image : String
  pub args : List String
  pub env : List EnvVar
  pub port : ℕ
  pub service_port : ℕ
  pub replicas : Option ℕ
  pub node_selector : Map String
  pub resources : Option ResourceRequirements
  pub gpu : Option GpuConfig
  pub host_ipc : Bool

pub record LlmEngineStatus : Type 0 where
  pub phase : String
  pub conditions : List Condition
  pub model_repositories : List String

pub record LlmEngine : Type 0 where
  pub metadata : Metadata
  pub open metadata use *
  pub spec : LlmEngineSpec
  pub status : LlmEngineStatus

abbrev pub condition_ready : String
condition_ready = "Ready"

abbrev pub condition_models_available : String
condition_models_available = "ModelsAvailable"

abbrev pub reason_model_repository_fetch_failed : String
reason_model_repository_fetch_failed = "ModelRepositoryFetchFailed"

abbrev pub reason_no_models_found : String
reason_no_models_found = "NoModelsFound"

abbrev pub reason_waiting_for_models : String
reason_waiting_for_models = "WaitingForModels"

abbrev pub reason_gpu_not_available : String
reason_gpu_not_available = "GPUNotAvailable"

abbrev pub reason_storage_pending : String
reason_storage_pending = "StoragePending"

abbrev pub reason_reconcile_failed : String
reason_reconcile_failed = "ReconcileFailed"

abbrev pub reason_models_ready : String
reason_models_ready = "ModelsReady"

abbrev pub reason_deployments_ready : String
reason_deployments_ready = "DeploymentsReady"

abbrev pub reason_deployments_created : String
reason_deployments_created = "DeploymentsCreated"
