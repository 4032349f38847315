-- ===== src/EngineController/Reconcile/Tests.antt =====
-- A whole reconciliation of an engine at a concrete input.
use aitrigram.Base.{String, ◌≡◌, refl, List, [], ◌∷◌, none, Bytes, bytes, lookup, insert, ℕ}
use aitrigram.Base.Results.{Result, ok}
use aitrigram.Api.Repository.{ModelRepository}
use aitrigram.Api.Engine.{LlmEngine}
use aitrigram.Api.Sample.{chat_engine, stored_repository}
use aitrigram.Names.Truncated.{truncated_name, llm_engine_pv_name, component_name}
use aitrigram.Provider.{get_or_default_mount_path}
use aitrigram.Storage.ReadOnly.{read_only_source, build_read_only_pv_spec}
use aitrigram.Cluster.{get_engine, Env, History, pure, ask, ◌>>=◌}
use aitrigram.Cluster.Objects.{PersistentVolumeClaim, claim_bound}
use aitrigram.Cluster.Sample.{bare}
use aitrigram.Library.Sample.{
  sample, blank_deployment, sample-SetsConditions, sample-RetriesOnConflict,
}
use aitrigram.EngineAdapters.Deployments.{adapt_deployment}
use aitrigram.EngineAdapters.Services.{adapt_service, adapt_vllm_config_map, is_vllm_engine}
use aitrigram.EngineStorage.{engine_claim_of, ensure_llm_engine_storage}
use aitrigram.EngineWorkload.{
  new_model_component, with_manifest_adapter, with_service_adapter, with_deployment_adapter,
  new_llm_engine_component, new_manifest_adapter_with_predicate,
}
use aitrigram.EngineWorkload.Reconcile as WorkloadReconcile
use aitrigram.EngineWorkload.Reconcile.{
  update_resources, reconcile_manifests, reconcile_deployment, reconcile_service, build_manifest,
  build_deployment, build_service, server_side_apply, finished, asked, in_namespace,
}
use aitrigram.RepositoryController.Revisions as Revisions
use aitrigram.EngineController.Deletion.{llm_engine_finalizer}
use aitrigram.EngineController.Loops.{
  Trouble, LoopEnd, done, Storages, fetch_model_repositories, first_waiting, ensure_storages,
  deploy, context_of, ready_count, deploy_all,
}
use aitrigram.EngineController.Reconcile.{is_gpu_enabled, reconcile}
use aitrigram.EngineController.Reconcile.Announced.{Announces, gpu_checked, reconcile-Announces}

abbrev kept_engine : LlmEngine
kept_engine = record chat_engine {
  metadata = record chat_engine.metadata { finalizers = llm_engine_finalizer ∷ [] };
}

abbrev mirror : Bytes
mirror = bytes "le-chat-llama"

abbrev mirror_claim : PersistentVolumeClaim
mirror_claim = record (engine_claim_of sample kept_engine "llama" mirror "5Gi") {
  phase = claim_bound;
}

-- The engine, its repository, its bound claim and its ready deployment are read; the volume is not
-- there and is created.
abbrev running_cluster : Env
running_cluster = record bare {
  engine = λ h. ok kept_engine;
  repository = λ h. ok stored_repository;
  claim = λ h. ok mirror_claim;
  deployment = λ h. ok (record blank_deployment { ready_replicas = 1 });
}

abbrev text : Trouble → String
text t = "trouble"

abbrev prepared : Storages
prepared = ("llama", record { pvc_name = mirror; mount_path = "/models" }) ∷ []

abbrev fetched : Result Trouble (List ModelRepository) × History
fetched =
    fetch_model_repositories kept_engine.spec.model_refs running_cluster
      (get_engine "apps" "chat" ∷ [])

abbrev ensured : LoopEnd Storages × History
ensured = ensure_storages sample kept_engine (stored_repository ∷ []) [] running_cluster fetched.1

abbrev deployed : LoopEnd ℕ × History
deployed =
    deploy_all sample kept_engine prepared (stored_repository ∷ []) 0 running_cluster ensured.1

fetches : fetched ≡ (ok (stored_repository ∷ []), fetched.1)
unfolding fetch_model_repositories ◌>>=◌ pure ask
fetches = refl

none_waits : first_waiting (stored_repository ∷ []) ≡ none
unfolding first_waiting
none_waits = refl

ensures : ensured ≡ (done prepared, ensured.1)
unfolding ensure_storages ensure_llm_engine_storage llm_engine_pv_name build_read_only_pv_spec
    engine_claim_of truncated_name read_only_source lookup insert get_or_default_mount_path ◌>>=◌
    pure ask
ensures = refl

deploys_one : deployed ≡ (done 1, deployed.1)
unfolding deploy_all deploy context_of ready_count new_model_component lookup
    WorkloadReconcile.reconcile update_resources reconcile_manifests reconcile_deployment
    reconcile_service build_manifest build_deployment build_service server_side_apply finished asked
    in_namespace with_manifest_adapter with_service_adapter with_deployment_adapter
    new_llm_engine_component new_manifest_adapter_with_predicate adapt_deployment adapt_service
    adapt_vllm_config_map is_vllm_engine component_name truncated_name ◌>>=◌ pure ask
deploys_one = refl

no_gpu :
    gpu_checked kept_engine (stored_repository ∷ []) running_cluster fetched.1 ≡ (ok tt, fetched.1)
unfolding pure is_gpu_enabled
no_gpu = refl

reconcile-Announces_example :
    let run = reconcile sample text "apps" "chat" running_cluster [] in
    (run.0 ≡ ok Revisions.finished)
    × Announces sample running_cluster kept_engine (stored_repository ∷ []) 1 deployed.1 run.1
reconcile-Announces_example =
    reconcile-Announces sample text sample-SetsConditions sample-RetriesOnConflict running_cluster
      "apps" "chat" kept_engine stored_repository [] prepared 1 [] fetched.1 fetched.1 ensured.1
      deployed.1 refl refl refl fetches none_waits no_gpu ensures deploys_one
