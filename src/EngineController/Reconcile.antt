-- ===== src/EngineController/Reconcile.antt =====
-- `Reconcile`. The text of a condition's message that quotes an error or a phase is a parameter: no
-- code reads it. A panic ends the reconciliation.
pub mod Gate
pub mod Running
pub mod Announced
mod Tests
use aitrigram.Base.{
  ℕ, ◌+◌, String, List, [], ◌∷◌, map, length, Bool, true, false, Option, none, some, ltb, nat_eq,
  if◌then◌else◌, concat, decimal, Map, lookup, insert,
}
use aitrigram.Base.Results.{Result, ok, err}
use aitrigram.Api.{condition_true, condition_false, Condition}
use aitrigram.Api.Repository.{DownloadPhase, ModelRepository, is_ready}
use aitrigram.Api.Engine.{
  ModelReference, GpuConfig, LlmEngine, condition_ready, condition_models_available,
  reason_model_repository_fetch_failed, reason_no_models_found, reason_waiting_for_models,
  reason_gpu_not_available, reason_storage_pending, reason_reconcile_failed, reason_models_ready,
  reason_deployments_ready, reason_deployments_created,
}
use aitrigram.Names.Truncated.{deployment_name}
use aitrigram.Cluster.{
  ApiError, is_not_found, Reply, M, pure, ask, ◌>>=◌, ◌>>◌, get_engine, update_engine,
  get_repository, get_deployment,
}
use aitrigram.Cluster.Workloads.{Deployment}
use aitrigram.Library.{Library}
use aitrigram.EngineAdapters.Deployments.{EngineContext}
use aitrigram.EngineStorage.{EngineStorageError, EngineStorageResult, ensure_llm_engine_storage}
use aitrigram.EngineWorkload.{WorkloadError, Component, new_model_component}
use aitrigram.EngineWorkload.Reconcile as EngineWorkload
use aitrigram.RepositoryController.Revisions.{
  Error, api, panics, CtrlResult, finished, requeue_after,
}
use aitrigram.EngineController.Loops.{
  Trouble, not_fetched, waiting_for, gpu_trouble, LoopEnd, done, troubled, panicked, Storages,
  fetch_model_repositories, first_waiting, ensure_storages, deploy_all,
}
use aitrigram.EngineController.Status.{
  Mutation, condition, not_ready, with_conditions, sync_status, set_not_ready,
}
use aitrigram.EngineController.Gpu.{GpuError, required_node_name, validate_gpu_availability}
use aitrigram.EngineController.References.{update_referenced_engines}
use aitrigram.EngineController.Deletion.{llm_engine_finalizer, handle_deletion}

abbrev pub Ended : Type 0
Ended = Result Error CtrlResult

unfoldable pub with_finalizer : Library → LlmEngine → LlmEngine
with_finalizer lib engine = record engine {
  metadata = record engine.metadata {
    finalizers = lib.add_finalizer engine.finalizers llm_engine_finalizer;
  };
}

-- return ctrl.Result{}, err
ending : Result Error (Unit {0}) → Ended
ending (ok _) = ok finished
ending (err e) = err e

pub repository_name : ModelRepository → String
repository_name r = r.name

pub is_gpu_enabled : Option GpuConfig → Bool
is_gpu_enabled none = false
is_gpu_enabled (some gpu) = gpu.enabled

module _ (lib : Library) (text : Trouble → String) where
  models_ready : Condition
  models_ready =
      condition condition_models_available condition_true reason_models_ready
        "All referenced models are available"

  readiness : (total all_deployments : ℕ) → Condition
  readiness total all_deployments =
      if nat_eq total all_deployments
      then condition condition_ready condition_true reason_deployments_ready
          (concat "All " (concat (decimal all_deployments) " model deployments ready"))
      else condition condition_ready condition_false reason_deployments_created (
          concat (decimal total)
            (concat "/" (concat (decimal all_deployments) " deployments ready")))

  unfoldable pub with_readiness : List ModelRepository → ℕ → Mutation
  unfolding readiness models_ready repository_name
  with_readiness repos total s =
      with_conditions lib (models_ready ∷ readiness total (length repos) ∷ [])
        (record s { model_repositories = map repository_name repos })

  fail_with : LlmEngine → String → Trouble → CtrlResult → M Ended
  fail_with engine reason t result = do set_not_ready lib engine reason (text t); pure (ok result)

  after_deployments : LlmEngine → List ModelRepository → LoopEnd ℕ → M Ended
  unfolding fail_with repository_name
  after_deployments engine repos panicked = pure (err panics)
  after_deployments engine repos (troubled t) = fail_with engine reason_reconcile_failed t finished
  after_deployments engine repos (done total) = do
    update_referenced_engines lib (map repository_name repos)
    _ ← sync_status lib engine (with_readiness repos total)
    pure (ok finished)

  after_storages : LlmEngine → List ModelRepository → LoopEnd Storages → M Ended
  unfolding fail_with after_deployments
  after_storages engine repos panicked = pure (err panics)
  after_storages engine repos (troubled t) =
      fail_with engine reason_storage_pending t (requeue_after 30)
  after_storages engine repos (done storages) = do
    total ← deploy_all lib engine storages repos 0
    after_deployments engine repos total

  after_gpu : LlmEngine → List ModelRepository → Result GpuError (Unit {0}) → M Ended
  unfolding fail_with after_storages
  after_gpu engine repos (err e) =
      fail_with engine reason_gpu_not_available (gpu_trouble e) (requeue_after 60)
  after_gpu engine repos (ok _) = do
    storages ← ensure_storages lib engine repos []
    after_storages engine repos storages

  check_gpu : LlmEngine → List ModelRepository → M Ended
  unfolding after_gpu is_gpu_enabled
  check_gpu engine repos =
      if is_gpu_enabled engine.spec.gpu
      then validate_gpu_availability engine (required_node_name repos) >>= after_gpu engine repos
      else after_gpu engine repos (ok tt)

  unfoldable pub with_waiting : ModelRepository → Mutation
  with_waiting r =
      let message = text (waiting_for r.name r.status.phase) in
      with_conditions lib (
        condition condition_models_available condition_false reason_waiting_for_models message
        ∷ not_ready reason_waiting_for_models message
        ∷ [])

  unless_waiting : LlmEngine → List ModelRepository → Option ModelRepository → M Ended
  unfolding check_gpu
  unless_waiting engine repos none = check_gpu engine repos
  unless_waiting engine repos (some r) = do
    _ ← sync_status lib engine (with_waiting r)
    pure (ok (requeue_after 30))

  with_repositories : LlmEngine → Result Trouble (List ModelRepository) → M Ended
  unfolding fail_with unless_waiting
  with_repositories engine (err t) =
      fail_with engine reason_model_repository_fetch_failed t finished
  with_repositories engine (ok []) = do
    set_not_ready lib engine reason_no_models_found "No ModelRepository resources found"
    pure (ok (requeue_after 30))
  with_repositories engine (ok (r ∷ rs)) = unless_waiting engine (r ∷ rs) (first_waiting (r ∷ rs))

  prepare_engine : LlmEngine → M Ended
  unfolding with_repositories
  prepare_engine engine = do
    repos ← fetch_model_repositories engine.spec.model_refs
    with_repositories engine repos

  finalizer_added : LlmEngine → Reply (Unit {0}) → M Ended
  unfolding prepare_engine
  finalizer_added engine (err e) = pure (err (api e))
  finalizer_added engine (ok _) = prepare_engine engine

  ensure_finalizer : LlmEngine → M Ended
  unfolding prepare_engine finalizer_added
  ensure_finalizer engine =
      if lib.contains_finalizer engine.finalizers llm_engine_finalizer
      then prepare_engine engine
      else do
        reply ← ask (update_engine (with_finalizer lib engine)) (λ env h. env.written h)
        finalizer_added (with_finalizer lib engine) reply

  delete_engine : LlmEngine → M Ended
  unfolding ending
  delete_engine engine = do result ← handle_deletion lib engine; pure (ending result)

  with_engine : Reply LlmEngine → M Ended
  unfolding delete_engine ensure_finalizer
  with_engine (err e) = if is_not_found e then pure (ok finished) else pure (err (api e))
  with_engine (ok engine) =
      if engine.deleting then delete_engine engine else ensure_finalizer engine

  unfoldable pub reconcile : (namespace name : String) → M Ended
  unfolding with_engine
  reconcile namespace name = do
    fetched ← ask (get_engine namespace name) (λ env h. env.engine h)
    with_engine fetched
