-- ===== src/RepositoryController/Reconcile.antt =====
-- `Reconcile` and `reconcileStorage`. The text of an error that a condition's message quotes is left
-- out: no code reads it.
pub mod Keeps
use aitrigram.Base.{
  ℕ, String, Bool, true, false, not, Option, none, some, if◌then◌else◌, concat, is_blank,
}
use aitrigram.Base.Results.{Result, ok, err}
use aitrigram.Api.{condition_true, condition_false}
use aitrigram.Api.Repository.{
  StorageStatus, ModelRepository, condition_ready, condition_storage_ready,
  reason_storage_provider_failed, reason_validation_failed, reason_provision_failed,
  reason_storage_provisioned,
}
use aitrigram.Cluster.{
  is_not_found, Reply, M, pure, ask, ◌>>=◌, ◌>>◌, get_repository, update_repository,
}
use aitrigram.Library.{Library}
use aitrigram.Provider.{
  StorageClassProvider, ProviderError, StorageError, create_provider, validate_config,
  create_storage, is_shared,
}
use aitrigram.Provider.Status.{StatusError, get_storage_status}
use aitrigram.RepositoryController.Status.{Mutation, condition, sync_status, set_condition}
use aitrigram.RepositoryController.Revisions.{
  Error, api, CtrlResult, finished, requeue, requeue_after,
}
use aitrigram.RepositoryController.Revisions.Loop.{reconcile_revisions}
use aitrigram.RepositoryController.Deletion.{model_repository_finalizer, handle_deletion}

-- What the storage step comes to: a repository and a provider to go on with, or the end.
pub data StorageEnd : Type 0 where
  prepared : ModelRepository → StorageClassProvider → StorageEnd
  stop : Result Error CtrlResult → StorageEnd

abbrev pub retry_in : ℕ → StorageEnd
retry_in seconds = stop (ok (requeue_after seconds))

-- The mutation of `updateStorageStatus`; the phase is not derived anew.
unfoldable pub with_storage : Library → StorageStatus → Mutation
with_storage lib storage s = record s {
  storage = some storage;
  conditions = lib.set_status_condition s.conditions (
      condition condition_storage_ready condition_true reason_storage_provisioned
        (concat "Storage provisioned with class " storage.storage_class));
}

-- `updateStorageStatus` returns no error.
synced : Reply (Unit {0}) → Bool
synced (ok _) = true
synced (err e) = false

unfoldable pub with_default_name : ModelRepository → ModelRepository
with_default_name repo = record repo { spec = record repo.spec { model_name = repo.name } }

unfoldable pub with_finalizer : Library → ModelRepository → ModelRepository
with_finalizer lib repo = record repo {
  metadata = record repo.metadata {
    finalizers = lib.add_finalizer repo.finalizers model_repository_finalizer;
  };
}

-- return ctrl.Result{}, err
ending : Result Error (Unit {0}) → Result Error CtrlResult
ending (ok _) = ok finished
ending (err e) = err e

module _ (lib : Library) (namespace : String) where
  write_storage_status : ModelRepository → Result StatusError StorageStatus → M Bool
  write_storage_status repo (err e) = pure false
  write_storage_status repo (ok storage) = do
    reply ← sync_status lib repo (with_storage lib storage)
    pure (synced reply)

  unfoldable pub update_storage_status : ModelRepository → StorageClassProvider → M Bool
  unfolding write_storage_status synced
  update_storage_status repo p = do
    storage ← get_storage_status p namespace
    write_storage_status repo storage

  refreshed_provider : ModelRepository → Result ProviderError StorageClassProvider → M StorageEnd
  refreshed_provider repo (err e) = pure (retry_in 60)
  refreshed_provider repo (ok p) = pure (prepared repo p)

  refreshed : Reply ModelRepository → M StorageEnd
  refreshed (err e) = pure (stop (err (api e)))
  refreshed (ok repo) = do p ← create_provider repo; refreshed_provider repo p

  -- RWO must wait for the claim to bind; RWX goes on with what it has.
  with_status : ModelRepository → StorageClassProvider → Bool → M StorageEnd
  with_status repo p true = do
    fresh ← ask (get_repository repo.name) (λ env h. env.repository h)
    refreshed fresh
  with_status repo p false = if is_shared p then pure (prepared repo p) else pure (retry_in 10)

  with_claim :
      ModelRepository → StorageClassProvider → Result StorageError (Unit {0}) → M StorageEnd
  with_claim repo p (err e) = do
    set_condition lib repo condition_storage_ready condition_false reason_provision_failed
        "Failed to provision storage"
    pure (retry_in 60)
  with_claim repo p (ok _) = do recorded ← update_storage_status repo p; with_status repo p recorded

  validated : ModelRepository → StorageClassProvider → Result StorageError (Unit {0}) → M StorageEnd
  validated repo p (err e) = do
    set_condition lib repo condition_storage_ready condition_false reason_validation_failed
        "Storage validation failed"
    pure (retry_in 60)
  validated repo p (ok _) = do claim ← create_storage lib p namespace; with_claim repo p claim

  unfoldable pub reconcile_storage : ModelRepository → StorageClassProvider → M StorageEnd
  unfolding validated with_claim with_status refreshed refreshed_provider
  reconcile_storage repo p = validated repo p (validate_config lib p)

  after_storage : StorageEnd → M (Result Error CtrlResult)
  after_storage (stop result) = pure result
  after_storage (prepared repo p) =
      if not repo.spec.auto_download
      then pure (ok finished)
      else reconcile_revisions lib namespace p repo

  prepare_and_download : ModelRepository → StorageClassProvider → M (Result Error CtrlResult)
  prepare_and_download repo p = do end ← reconcile_storage repo p; after_storage end

  finalizer_added :
      ModelRepository → StorageClassProvider → Reply (Unit {0}) → M (Result Error CtrlResult)
  finalizer_added repo p (err e) = pure (err (api e))
  finalizer_added repo p (ok _) = prepare_and_download repo p

  ensure_finalizer : ModelRepository → StorageClassProvider → M (Result Error CtrlResult)
  ensure_finalizer repo p =
      if lib.contains_finalizer repo.finalizers model_repository_finalizer
      then prepare_and_download repo p
      else do
        reply ← ask (update_repository (with_finalizer lib repo)) (λ env h. env.written h)
        finalizer_added (with_finalizer lib repo) p reply

  delete_repository : ModelRepository → Option StorageClassProvider → M (Result Error CtrlResult)
  delete_repository repo p = do result ← handle_deletion lib namespace repo p; pure (ending result)

  no_provider : ModelRepository → M (Result Error CtrlResult)
  no_provider repo = do
    set_condition lib repo condition_ready condition_false reason_storage_provider_failed
        "Failed to create storage provider"
    pure (ok (requeue_after 60))

  with_provider :
      ModelRepository → Result ProviderError StorageClassProvider → M (Result Error CtrlResult)
  with_provider repo (err e) =
      if repo.deleting then delete_repository repo none else no_provider repo
  with_provider repo (ok p) =
      if repo.deleting then delete_repository repo (some p) else ensure_finalizer repo p

  named : Reply (Unit {0}) → Result Error CtrlResult
  named (ok _) = ok requeue
  named (err e) = err (api e)

  name_repository : ModelRepository → M (Result Error CtrlResult)
  name_repository repo = do
    reply ← ask (update_repository (with_default_name repo)) (λ env h. env.written h)
    pure (named reply)

  select_provider : ModelRepository → M (Result Error CtrlResult)
  select_provider repo = do p ← create_provider repo; with_provider repo p

  fetched : Reply ModelRepository → M (Result Error CtrlResult)
  fetched (err e) = pure (if is_not_found e then ok finished else err (api e))
  fetched (ok repo) =
      if is_blank repo.spec.model_name then name_repository repo else select_provider repo

  unfoldable pub reconcile : String → M (Result Error CtrlResult)
  unfolding fetched select_provider name_repository named with_provider no_provider
      delete_repository ensure_finalizer finalizer_added prepare_and_download after_storage ending
  reconcile name = do repo ← ask (get_repository name) (λ env h. env.repository h); fetched repo
