-- ===== src/RepositoryController/Reconcile/Keeps.antt =====
-- Reconciling a repository that is not being deleted keeps its claim.
use aitrigram.Base.{◌≡◌, String, ◌∷◌, Bool, true, false}
use aitrigram.Base.Results.{Result, ok, err}
use aitrigram.Api.{ConditionStatus}
use aitrigram.Api.Repository.{ModelRepository, StorageStatus}
use aitrigram.Cluster.{Reply, get_repository, Env, History, ask, ◌>>=◌}
use aitrigram.Cluster.Issues.{Adds, Issues, issues_rules, Issues-imp, Issues-else}
use aitrigram.Library.{Library, RetriesOnConflict}
use aitrigram.Provider.{StorageClassProvider, ProviderError, StorageError}
use aitrigram.Provider.Keeps.{IsKeeping, create_provider_keeps, create_storage_keeps}
use aitrigram.Provider.Status.{StatusError}
use aitrigram.Provider.Status.Keeps.{get_storage_status_keeps}
use aitrigram.RepositoryController.Status.{Mutation, sync_status, set_condition}
use aitrigram.RepositoryController.Status.Writes.{sync_status-Issues}
use aitrigram.RepositoryController.Revisions.Loop.Keeps.{
  IsKeeping-of-IsStatusCall, set_condition_keeps, reconcile_revisions_keeps,
}
use aitrigram.RepositoryController.Reconcile.{
  StorageEnd, prepared, stop, write_storage_status, update_storage_status, refreshed_provider,
  refreshed, with_status, with_claim, validated, reconcile_storage, after_storage,
  prepare_and_download, finalizer_added, ensure_finalizer, no_provider, with_provider,
  name_repository, select_provider, fetched, reconcile,
}

module _ (lib : Library) (namespace : String) (retries : RetriesOnConflict lib) where
  sync_status_keeps :
      (repo : ModelRepository) (mutate : Mutation) → Issues IsKeeping (sync_status lib repo mutate)
  sync_status_keeps repo mutate =
      Issues-imp _ IsKeeping-of-IsStatusCall (sync_status-Issues lib repo mutate retries)

  told :
      (repo : ModelRepository) (type : String) (status : ConditionStatus) (reason message : String)
      → Issues IsKeeping (set_condition lib repo type status reason message)
  told = set_condition_keeps lib namespace retries

  write_storage_status_keeps :
      (repo : ModelRepository) (storage : Result StatusError StorageStatus)
      → Issues IsKeeping (write_storage_status lib namespace repo storage)
  unfolding write_storage_status
  write_storage_status_keeps repo (err e) = search issues_rules
  write_storage_status_keeps repo (ok storage) = search (issues_rules, sync_status_keeps)

  update_storage_status_keeps :
      (repo : ModelRepository) (p : StorageClassProvider)
      → Issues IsKeeping (update_storage_status lib namespace repo p)
  unfolding update_storage_status
  update_storage_status_keeps repo p =
      search (issues_rules, get_storage_status_keeps, write_storage_status_keeps)

  refreshed_provider_keeps :
      (repo : ModelRepository) (p : Result ProviderError StorageClassProvider)
      → Issues IsKeeping (refreshed_provider lib namespace repo p)
  unfolding refreshed_provider
  refreshed_provider_keeps repo (err e) = search issues_rules
  refreshed_provider_keeps repo (ok p) = search issues_rules

  refreshed_keeps :
      (fresh : Reply ModelRepository) → Issues IsKeeping (refreshed lib namespace fresh)
  unfolding refreshed
  refreshed_keeps (err e) = search issues_rules
  refreshed_keeps (ok repo) = search (issues_rules, create_provider_keeps, refreshed_provider_keeps)

  with_status_keeps :
      (repo : ModelRepository) (p : StorageClassProvider) (recorded : Bool)
      → Issues IsKeeping (with_status lib namespace repo p recorded)
  unfolding with_status
  with_status_keeps repo p true = search (issues_rules, refreshed_keeps, tt)
  with_status_keeps repo p false = search issues_rules

  with_claim_keeps :
      (repo : ModelRepository) (p : StorageClassProvider) (claim : Result StorageError (Unit {0}))
      → Issues IsKeeping (with_claim lib namespace repo p claim)
  unfolding with_claim
  with_claim_keeps repo p (err e) = search (issues_rules, told)
  with_claim_keeps repo p (ok u) =
      search (issues_rules, update_storage_status_keeps, with_status_keeps)

  validated_keeps :
      (repo : ModelRepository) (p : StorageClassProvider) (valid : Result StorageError (Unit {0}))
      → Issues IsKeeping (validated lib namespace repo p valid)
  unfolding validated
  validated_keeps repo p (err e) = search (issues_rules, told)
  validated_keeps repo p (ok u) = search (issues_rules, create_storage_keeps, with_claim_keeps)

  reconcile_storage_keeps :
      (repo : ModelRepository) (p : StorageClassProvider)
      → Issues IsKeeping (reconcile_storage lib namespace repo p)
  unfolding reconcile_storage
  reconcile_storage_keeps repo p = validated_keeps repo p _

  after_storage_keeps : (end : StorageEnd) → Issues IsKeeping (after_storage lib namespace end)
  unfolding after_storage
  after_storage_keeps (stop result) = search issues_rules
  after_storage_keeps (prepared repo p) =
      search (issues_rules, reconcile_revisions_keeps lib namespace retries)

  prepare_and_download_keeps :
      (repo : ModelRepository) (p : StorageClassProvider)
      → Issues IsKeeping (prepare_and_download lib namespace repo p)
  unfolding prepare_and_download
  prepare_and_download_keeps repo p =
      search (issues_rules, reconcile_storage_keeps, after_storage_keeps)

  finalizer_added_keeps :
      (repo : ModelRepository) (p : StorageClassProvider) (reply : Reply (Unit {0}))
      → Issues IsKeeping (finalizer_added lib namespace repo p reply)
  unfolding finalizer_added
  finalizer_added_keeps repo p (err e) = search issues_rules
  finalizer_added_keeps repo p (ok u) = search (issues_rules, prepare_and_download_keeps)

  ensure_finalizer_keeps :
      (repo : ModelRepository) (p : StorageClassProvider)
      → Issues IsKeeping (ensure_finalizer lib namespace repo p)
  unfolding ensure_finalizer
  ensure_finalizer_keeps repo p =
      search (issues_rules, prepare_and_download_keeps, finalizer_added_keeps, tt)

  no_provider_keeps : (repo : ModelRepository) → Issues IsKeeping (no_provider lib namespace repo)
  unfolding no_provider
  no_provider_keeps repo = search (issues_rules, told)

  with_provider_keeps :
      (repo : ModelRepository) (p : Result ProviderError StorageClassProvider)
      → repo.deleting ≡ false
      → Issues IsKeeping (with_provider lib namespace repo p)
  unfolding with_provider
  with_provider_keeps repo (err e) live =
      Issues-else repo.deleting _ _ live (no_provider_keeps repo)
  with_provider_keeps repo (ok p) live =
      Issues-else repo.deleting _ _ live (ensure_finalizer_keeps repo p)

  select_provider_keeps :
      (repo : ModelRepository)
      → repo.deleting ≡ false
      → Issues IsKeeping (select_provider lib namespace repo)
  unfolding select_provider
  select_provider_keeps repo live =
      search (issues_rules, create_provider_keeps, with_provider_keeps)

  name_repository_keeps :
      (repo : ModelRepository) → Issues IsKeeping (name_repository lib namespace repo)
  unfolding name_repository
  name_repository_keeps repo = search (issues_rules, tt)

  fetched_keeps :
      (repo : ModelRepository)
      → repo.deleting ≡ false
      → Issues IsKeeping (fetched lib namespace (ok repo))
  unfolding fetched
  fetched_keeps repo live = search (issues_rules, name_repository_keeps, select_provider_keeps)

  -- If RetryOnConflict does nothing but repeat its action after conflicts: where the repository is
  -- read and is not being deleted, a reconciliation neither changes nor deletes any claim, whatever
  -- the cluster answers to its later calls.
  pub reconcile_keeps :
      (name : String) (repo : ModelRepository) (env : Env) (h : History)
      → env.repository (get_repository name ∷ h) ≡ ok repo
      → repo.deleting ≡ false
      → Adds IsKeeping (get_repository name ∷ h) (reconcile lib namespace name env h).1
  unfolding reconcile ◌>>=◌ ask
  reconcile_keeps name repo env h read live =
      rw read ((fetched_keeps repo live).at env (get_repository name ∷ h))
