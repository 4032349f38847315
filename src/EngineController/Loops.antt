-- ===== src/EngineController/Loops.antt =====
-- The loops of `Reconcile` over the repositories of an engine, and `fetchModelRepositories`. A panic
-- of a name ends the reconciliation.
pub mod Fetch
pub mod Ready
pub mod Serves
mod Tests
use aitrigram.Base.{
  ℕ, ◌+◌, String, List, [], ◌∷◌, map, length, Bool, true, false, Option, none, some, ltb, nat_eq,
  if◌then◌else◌, concat, decimal, Map, lookup, insert,
}
use aitrigram.Base.Results.{Result, ok, err}
use aitrigram.Api.{condition_true, condition_false, Condition}
use aitrigram.Api.Repository.{DownloadPhase, ModelRepository, is_ready}
use aitrigram.Api.Engine.{
  ModelReference, GpuConfig, LlmEngine, condition_ready, condition_models_available,
  reason_model_repository_fetch_failed, reason_no_models_found, reason_waiting_for_models,
  reason_gpu_not_available, reason_storage_pending, reason_reconcile_failed, reason_models_ready,
  reason_deployments_ready, reason_deployments_created,
}
use aitrigram.Names.Truncated.{deployment_name}
use aitrigram.Cluster.{
  ApiError, is_not_found, Reply, M, pure, ask, ◌>>=◌, ◌>>◌, get_engine, update_engine,
  get_repository, get_deployment,
}
use aitrigram.Cluster.Workloads.{Deployment}
use aitrigram.Library.{Library}
use aitrigram.EngineAdapters.Deployments.{EngineContext}
use aitrigram.EngineStorage.{EngineStorageError, EngineStorageResult, ensure_llm_engine_storage}
use aitrigram.EngineWorkload.{WorkloadError, Component, new_model_component}
use aitrigram.EngineWorkload.Reconcile as EngineWorkload
use aitrigram.RepositoryController.Revisions.{
  Error, api, panics, CtrlResult, finished, requeue_after,
}
use aitrigram.EngineController.Status.{
  Mutation, condition, not_ready, with_conditions, sync_status, set_not_ready,
}
use aitrigram.EngineController.Gpu.{GpuError, required_node_name, validate_gpu_availability}
use aitrigram.EngineController.References.{update_referenced_engines}
use aitrigram.EngineController.Deletion.{handle_deletion}

-- What a message tells of.
pub data Trouble : Type 0 where
  not_fetched : (repo : String) → ApiError → Trouble
  waiting_for : (repo : String) → DownloadPhase → Trouble
  gpu_trouble : GpuError → Trouble
  storage_trouble : (repo : String) → EngineStorageError → Trouble
  workload_trouble : (repo : String) → WorkloadError → Trouble

-- A read that fails counts as not ready.
unfoldable pub ready_count : Reply Deployment → ℕ
ready_count (err e) = 0
ready_count (ok d) = if ltb 0 d.ready_replicas then 1 else 0

fetched_one : String → Reply ModelRepository → Result Trouble ModelRepository
fetched_one name (ok r) = ok r
fetched_one name (err e) = err (not_fetched name e)

consed :
    Result Trouble ModelRepository
    → Result Trouble (List ModelRepository)
    → Result Trouble (List ModelRepository)
consed (err e) rest = err e
consed (ok r) (err e) = err e
consed (ok r) (ok rs) = ok (r ∷ rs)

then_rest :
    M (Result Trouble (List ModelRepository))
    → Result Trouble ModelRepository
    → M (Result Trouble (List ModelRepository))
then_rest m (err e) = pure (err e)
then_rest m (ok r) = do rest ← m; pure (consed (ok r) rest)

-- The first repository that cannot be read ends the loop.
unfoldable pub fetch_model_repositories :
    List ModelReference → M (Result Trouble (List ModelRepository))
unfolding fetched_one consed then_rest
fetch_model_repositories [] = pure (ok [])
fetch_model_repositories (ref ∷ refs) = do
  reply ← ask (get_repository ref.name) (λ env h. env.repository h)
  then_rest (fetch_model_repositories refs) (fetched_one ref.name reply)

unfoldable pub first_waiting : List ModelRepository → Option ModelRepository
first_waiting [] = none
first_waiting (r ∷ rs) = if is_ready r.status.phase then first_waiting rs else some r

-- What a loop over the repositories comes to: a value, a condition's reason and trouble, or a panic.
pub data LoopEnd {ℓ} (A : Type ℓ) : Type ℓ where
  done : A → LoopEnd A
  troubled : Trouble → LoopEnd A
  panicked : LoopEnd A

abbrev pub Storages : Type 0
Storages = Map EngineStorageResult

module _ (lib : Library) (engine : LlmEngine) where
  stored : String → Result EngineStorageError EngineStorageResult → LoopEnd EngineStorageResult
  stored repo (ok s) = done s
  stored repo (err EngineStorageError.panics) = panicked
  stored repo (err e) = troubled (storage_trouble repo e)

  then_ensure :
      String
      → (Storages → M (LoopEnd Storages))
      → Storages
      → LoopEnd EngineStorageResult
      → M (LoopEnd Storages)
  then_ensure repo go storages (done s) = go (insert repo s storages)
  then_ensure repo go storages (troubled t) = pure (troubled t)
  then_ensure repo go storages panicked = pure panicked

  -- The read-only storage of every repository, by its name.
  unfoldable pub ensure_storages : List ModelRepository → Storages → M (LoopEnd Storages)
  unfolding then_ensure stored
  ensure_storages [] storages = pure (done storages)
  ensure_storages (r ∷ rs) storages = do
    result ← ensure_llm_engine_storage lib engine r
    then_ensure r.name (ensure_storages rs) storages (stored r.name result)

  unfoldable pub context_of : ModelRepository → EngineStorageResult → EngineContext
  context_of r s = record {
    engine = engine;
    repository = r;
    namespace = engine.namespace;
    model_pvc_name = s.pvc_name;
  }

  deployed : String → Result WorkloadError (Unit {0}) → LoopEnd (Unit {0})
  deployed repo (ok u) = done u
  deployed repo (err WorkloadError.panics) = panicked
  deployed repo (err e) = troubled (workload_trouble repo e)

  -- A storage that is missing would be a nil pointer.
  deploy_with :
      ModelRepository → Option EngineStorageResult → Option Component → M (LoopEnd (Unit {0}))
  unfolding deployed
  deploy_with r none w = pure panicked
  deploy_with r (some s) none = pure panicked
  deploy_with r (some s) (some w) = do
    result ← EngineWorkload.reconcile lib (context_of r s) w
    pure (deployed r.name result)

  unfoldable pub deploy : Storages → ModelRepository → M (LoopEnd (Unit {0}))
  unfolding deploy_with
  deploy storages r = deploy_with r (lookup r.name storages) (new_model_component lib engine r)

  then_count : ModelRepository → (ℕ → M (LoopEnd ℕ)) → ℕ → LoopEnd (Unit {0}) → M (LoopEnd ℕ)
  then_count r go total (troubled t) = pure (troubled t)
  then_count r go total panicked = pure panicked
  then_count r go total (done u) = do
    reply ←
        ask (get_deployment engine.namespace (deployment_name engine.name r.name))
          (λ env h. env.deployment h)
    go (total + ready_count reply)

  -- Every repository's workload, and how many of the deployments are ready.
  unfoldable pub deploy_all : Storages → List ModelRepository → ℕ → M (LoopEnd ℕ)
  unfolding then_count
  deploy_all storages [] total = pure (done total)
  deploy_all storages (r ∷ rs) total = do
    result ← deploy storages r
    then_count r (deploy_all storages rs) total result
