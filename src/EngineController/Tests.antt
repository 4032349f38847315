-- ===== src/EngineController/Tests.antt =====
-- The theorems about the controller of engines at concrete inputs.
use aitrigram.Base.{◌≡◌, refl, ◌<◌, ◌↔◌, ◌⊎◌, String, List, [], ◌∷◌, true, some, any, length, All}
use aitrigram.Base.Results.{ok, ok-injective}
use aitrigram.Api.Repository.{ModelRepository, downloading}
use aitrigram.Api.Engine.{LlmEngine, LlmEngineStatus}
use aitrigram.Api.Sample.{chat_engine, stored_repository, one_gpu}
use aitrigram.Cluster.{Env, pure, ask, ◌>>=◌}
use aitrigram.Cluster.Sample.{bare}
use aitrigram.Cluster.Issues.{Adds}
use aitrigram.Cluster.Workloads.{Node}
use aitrigram.Library.Sample.{sample, sample-SetsConditions, sample-RetriesOnConflict}
use aitrigram.RepositoryController.Deletion.{refers_to}
use aitrigram.EngineStorage.{EngineStorageResult}
use aitrigram.EngineController.Status.{not_ready, with_conditions, phase_of_reason}
use aitrigram.EngineController.Status.Phases.{with_conditions-phase}
use aitrigram.EngineController.Status.Writes.{IsWaiting}
use aitrigram.EngineController.Gpu.{validate_gpu_availability}
use aitrigram.EngineController.Gpu.Suitable.{HasSuitable, validate_gpu_availability_lem}
use aitrigram.EngineController.References.{engine_key, referencing_engines, requests_of}
use aitrigram.EngineController.References.Names.{
  has_name, is_reference, has_name-referencing_engines,
}
use aitrigram.EngineController.References.Requests.{asks_for, requests_of-referencing_engines}
use aitrigram.EngineController.Loops.{Trouble, done, deploy_all}
use aitrigram.EngineController.Loops.Fetch.{NeverReady}
use aitrigram.EngineController.Loops.Ready.{HasReady, deploy_all-counts}
use aitrigram.EngineController.Reconcile.{reconcile}
use aitrigram.EngineController.Reconcile.Gate.{reconcile_waits}
use aitrigram.Base.{lookup}
use aitrigram.Library.Sample.{blank_deployment}
use aitrigram.Names.Truncated.{truncated_name, component_name}
use aitrigram.EngineAdapters.Deployments.{adapt_deployment}
use aitrigram.EngineAdapters.Services.{adapt_service, adapt_vllm_config_map, is_vllm_engine}
use aitrigram.EngineWorkload.{
  new_model_component, with_manifest_adapter, with_service_adapter, with_deployment_adapter,
  new_llm_engine_component, new_manifest_adapter_with_predicate,
}
use aitrigram.EngineWorkload.Reconcile as WorkloadReconcile
use aitrigram.EngineWorkload.Reconcile.{
  update_resources, reconcile_manifests, reconcile_deployment, reconcile_service, build_manifest,
  build_deployment, build_service, server_side_apply, finished, asked, in_namespace,
}
use aitrigram.EngineController.Loops.{deploy, context_of, ready_count}

abbrev blank_status : LlmEngineStatus
blank_status = record { phase = ""; conditions = []; model_repositories = [] }

with_conditions-phase_example :
    (with_conditions sample (not_ready "GPUNotAvailable" "no node" ∷ []) blank_status).phase
    ≡ phase_of_reason "GPUNotAvailable"
with_conditions-phase_example =
    with_conditions-phase sample sample-SetsConditions [] (not_ready "GPUNotAvailable" "no node")
      blank_status refl

phases_test :
    (phase_of_reason "GPUNotAvailable" ≡ "Pending")
    × (phase_of_reason "ReconcileFailed" ≡ "Error")
    × (phase_of_reason "DeploymentsCreated" ≡ "Starting")
unfolding phase_of_reason
phases_test = (refl, refl, refl)

abbrev gpu_engine : LlmEngine
gpu_engine = record chat_engine { spec = record chat_engine.spec { gpu = some one_gpu } }

abbrev gpu_node : Node
gpu_node = record {
  name = "node-a";
  labels = ("zone", "a") ∷ [];
  allocatable = ("nvidia.com/gpu", 2) ∷ [];
}

abbrev gpu_cluster : Env
gpu_cluster = record bare { nodes = λ h. ok (gpu_node ∷ []) }

validate_gpu_availability_lem_example :
    ((validate_gpu_availability gpu_engine "" gpu_cluster []).0 ≡ ok tt)
    ↔ HasSuitable one_gpu "" gpu_cluster []
validate_gpu_availability_lem_example =
    validate_gpu_availability_lem gpu_engine one_gpu "" gpu_cluster [] refl refl

has_name-referencing_engines_example :
    has_name "apps/chat" (referencing_engines "llama" (chat_engine ∷ []))
    ≡ any (is_reference "apps/chat" "llama") (chat_engine ∷ [])
has_name-referencing_engines_example =
    has_name-referencing_engines "apps/chat" "llama" (chat_engine ∷ [])

is_listed : has_name "apps/chat" (referencing_engines "llama" (chat_engine ∷ [])) ≡ true
unfolding referencing_engines refers_to engine_key
is_listed = refl

requests_of-referencing_engines_example :
    any (asks_for "apps/chat") (requests_of "llama" (chat_engine ∷ [])) ≡ true
requests_of-referencing_engines_example =
    requests_of-referencing_engines "apps/chat" "llama" (chat_engine ∷ []) is_listed

abbrev storages : List (String × EngineStorageResult)
storages = ("llama", record { pvc_name = []; mount_path = "/models" }) ∷ []

abbrev waiting_repository : ModelRepository
waiting_repository = record stored_repository {
  status = record stored_repository.status { phase = downloading };
}

abbrev waiting_cluster : Env
waiting_cluster = record bare {
  engine = λ h. ok chat_engine;
  repository = λ h. ok waiting_repository;
}

llama_waits : NeverReady waiting_cluster "llama"
llama_waits h r e = let same = ok-injective waiting_repository r e in rw (← same) refl

refers : refers_to "llama" chat_engine ≡ true
unfolding refers_to
refers = refl

abbrev text : Trouble → String
text t = "trouble"

reconcile_waits_example :
    Adds IsWaiting [] (reconcile sample text "apps" "chat" waiting_cluster []).1
reconcile_waits_example =
    reconcile_waits sample text sample-RetriesOnConflict waiting_cluster "llama" llama_waits "apps"
      "chat" chat_engine [] refl refl refers

-- Everything that the engine needs is there, and its deployment has a ready replica.
abbrev serving : Env
serving = record bare { deployment = λ h. ok (record blank_deployment { ready_replicas = 1 }) }

counts_one :
    (deploy_all sample chat_engine storages (stored_repository ∷ []) 0 serving []).0 ≡ done 1
unfolding deploy_all deploy context_of ready_count new_model_component lookup
    WorkloadReconcile.reconcile update_resources reconcile_manifests reconcile_deployment
    reconcile_service build_manifest build_deployment build_service server_side_apply finished asked
    in_namespace with_manifest_adapter with_service_adapter with_deployment_adapter
    new_llm_engine_component new_manifest_adapter_with_predicate adapt_deployment adapt_service
    adapt_vllm_config_map is_vllm_engine component_name truncated_name ◌>>=◌ pure ask
counts_one = refl

deploy_all-counts_example :
    (1 < length (stored_repository ∷ []))
    ⊎ ((1 ≡ length (stored_repository ∷ []))
        × All (HasReady serving chat_engine) (stored_repository ∷ []))
deploy_all-counts_example =
    deploy_all-counts sample chat_engine storages serving (stored_repository ∷ []) 1 [] counts_one
