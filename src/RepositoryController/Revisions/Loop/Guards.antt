-- ===== src/RepositoryController/Revisions/Loop/Guards.antt =====
-- When `reconcileRevision` leaves the jobs of the cluster alone.
use aitrigram.Base.{◌≡◌, refl, ◌⊎◌, inl, inr, String, ◌∷◌, true, false, Option, some, Bytes, bytes}
use aitrigram.Base.Results.{ok, err}
use aitrigram.Api.Repository.{
  DownloadPhase, RevisionStatus, RevisionReference, ModelRepository, is_ready, downloading,
}
use aitrigram.Names.Jobs.{download, cleanup, generate_job_name}
use aitrigram.Cluster.{
  ApiError, not_found, already_exists, conflict, failed, is_not_found, get_job, create_job,
  delete_job, Env, History, Reply, pure, ask, ◌>>=◌,
}
use aitrigram.Cluster.Objects.{Job}
use aitrigram.Cluster.Issues.{Adds, Issues, issues_rules}
use aitrigram.Library.{Library, RetriesOnConflict}
use aitrigram.Provider.{StorageClassProvider}
use aitrigram.RepositoryController.Status.{
  find_revision_status, update_revision_status, with_revision,
}
use aitrigram.RepositoryController.Status.Writes.{
  IsStatusCall, sync_status-Issues, set_condition-Issues,
}
use aitrigram.RepositoryController.Revisions.{
  Outcome, done, again_after, stopped, api, stale_deleted, delete_stale_cleanup_job,
  create_revision_download_job,
}
use aitrigram.RepositoryController.Revisions.Loop.{
  conclude, job_succeeded, job_failed, handle_job_status, known_ready, create_download_job, unstale,
  reconcile_revision,
}

module _ (lib : Library) (namespace : String) (retries : RetriesOnConflict lib)
    (repo : ModelRepository) (rev : RevisionReference) where
  pub update_revision_status-Issues :
      (new : RevisionStatus) → Issues IsStatusCall (update_revision_status lib repo new)
  unfolding update_revision_status
  update_revision_status-Issues new = sync_status-Issues lib repo (with_revision new) retries

  pub conclude-Issues :
      (rs : Option RevisionStatus) (phase : DownloadPhase) (outcome : Outcome)
      → Issues IsStatusCall (conclude lib namespace repo rev rs phase outcome)
  unfolding conclude
  conclude-Issues rs phase outcome = search (issues_rules, update_revision_status-Issues)

  job_failed-Issues :
      (rs : Option RevisionStatus) → Issues IsStatusCall (job_failed lib namespace repo rev rs)
  unfolding job_failed
  job_failed-Issues rs = search (issues_rules, update_revision_status-Issues, set_condition-Issues)

  job_succeeded-Issues :
      (rs : Option RevisionStatus) → Issues IsStatusCall (job_succeeded lib namespace repo rev rs)
  unfolding job_succeeded
  job_succeeded-Issues rs = search (issues_rules, update_revision_status-Issues)

  pub handle_job_status-Issues :
      (rs : Option RevisionStatus) (job : Job)
      → Issues IsStatusCall (handle_job_status lib namespace repo rev rs job)
  unfolding handle_job_status
  handle_job_status-Issues rs job =
      search (issues_rules, conclude-Issues, job_failed-Issues, job_succeeded-Issues)

  module _ (provider : StorageClassProvider) (env : Env) (h : History) where
    -- If RetryOnConflict does nothing but repeat its action after conflicts: where a revision is
    -- not recorded as ready, its download job has a name and the job exists, reconciling the
    -- revision makes no call after reading the job but reads of repositories and status updates.
    pub reconcile_revision_running :
        (name : Bytes) (job : Job)
        → known_ready lib namespace (find_revision_status repo rev.name) ≡ false
        → generate_job_name download (bytes repo.name) (bytes rev.name) ≡ some name
        → env.job (get_job namespace name ∷ h) ≡ ok job
        → Adds IsStatusCall
            (get_job namespace name ∷ h)
            (reconcile_revision lib namespace provider repo rev env h).1
    unfolding reconcile_revision ◌>>=◌ pure ask
    reconcile_revision_running name job unready named found =
        rw (unready, named, found)
          ((handle_job_status-Issues (find_revision_status repo rev.name) job).at env
            (get_job namespace name ∷ h))

    -- If RetryOnConflict does nothing but repeat its action after conflicts: where a revision has a
    -- status that is not ready, its two jobs have names and neither exists, the manifest can be
    -- adapted and owned, and the creation succeeds, the adapted job is what is created, after it
    -- only statuses are read and written, and the revision counts as running.
    pub reconcile_revision_creates :
        (name stale : Bytes) (rs : RevisionStatus) (job owned : Job)
        → find_revision_status repo rev.name ≡ some rs
        → is_ready rs.status ≡ false
        → generate_job_name download (bytes repo.name) (bytes rev.name) ≡ some name
        → generate_job_name cleanup (bytes repo.name) (bytes rev.name) ≡ some stale
        → env.job (get_job namespace name ∷ h) ≡ err not_found
        → env.job (get_job namespace stale ∷ get_job namespace name ∷ h) ≡ err not_found
        → create_revision_download_job lib namespace repo provider rev name ≡ ok job
        → lib.set_controller_reference repo job ≡ ok owned
        → env.written (create_job owned ∷ get_job namespace stale ∷ get_job namespace name ∷ h)
          ≡ ok tt
        → ((reconcile_revision lib namespace provider repo rev env h).0.0 ≡ done true)
          × Adds IsStatusCall
              (create_job owned ∷ get_job namespace stale ∷ get_job namespace name ∷ h)
              (reconcile_revision lib namespace provider repo rev env h).1
    unfolding reconcile_revision create_download_job delete_stale_cleanup_job conclude ◌>>=◌ pure
        ask
    reconcile_revision_creates name stale rs job owned status unready named cleanup_named missing
          clean built claimed created =
        rw (status, unready, named, missing, cleanup_named, clean, built, claimed, created)
          (
            refl,
            (conclude-Issues (some rs) downloading (done true)).at env
                (create_job owned ∷ get_job namespace stale ∷ get_job namespace name ∷ h),
          )

module _ (lib : Library) (namespace : String) (repo : ModelRepository) (rev : RevisionReference)
    (provider : StorageClassProvider) (env : Env) (h : History) where
  stale_calls :
      (name : Bytes) (rs : Option RevisionStatus) (reply : Reply (Unit {0})) (k : History)
      → (unstale lib namespace repo rev rs provider name
          (stale_deleted lib namespace reply)
          env
          k).1
        ≡ k
  unfolding unstale stale_deleted pure
  stale_calls name rs (ok _) k = refl
  stale_calls name rs (err not_found) k = refl
  stale_calls name rs (err already_exists) k = refl
  stale_calls name rs (err conflict) k = refl
  stale_calls name rs (err failed) k = refl

  stale_outcome :
      (name : Bytes) (rs : Option RevisionStatus) (reply : Reply (Unit {0})) (k : History)
      → let step =
          (unstale lib namespace repo rev rs provider name
            (stale_deleted lib namespace reply)
            env
            k).0 in
        (step ≡ (again_after 5, repo))
        ⊎ ((e : ApiError) × (reply ≡ err e)
            × (is_not_found e ≡ false)
            × (step ≡ (stopped (api e), repo)))
  unfolding unstale stale_deleted pure
  stale_outcome name rs (ok _) k = inl refl
  stale_outcome name rs (err not_found) k = inl refl
  stale_outcome name rs (err already_exists) k = inr (already_exists, refl, refl, refl)
  stale_outcome name rs (err conflict) k = inr (conflict, refl, refl, refl)
  stale_outcome name rs (err failed) k = inr (failed, refl, refl, refl)

  -- Where a revision is not recorded as ready, its two jobs have names, its download job does not
  -- exist and its cleanup job does, the cleanup job is deleted and no other call follows. The
  -- revision is tried again after five seconds, or the deletion was answered by another error
  -- than not found and that error is returned.
  pub reconcile_revision_stale :
      (name stale : Bytes) (job : Job)
      → known_ready lib namespace (find_revision_status repo rev.name) ≡ false
      → generate_job_name download (bytes repo.name) (bytes rev.name) ≡ some name
      → generate_job_name cleanup (bytes repo.name) (bytes rev.name) ≡ some stale
      → env.job (get_job namespace name ∷ h) ≡ err not_found
      → env.job (get_job namespace stale ∷ get_job namespace name ∷ h) ≡ ok job
      → let k : History =
          delete_job namespace stale ∷ get_job namespace stale ∷ get_job namespace name ∷ h in
        let run = reconcile_revision lib namespace provider repo rev env h in
        (run.1 ≡ k)
        × ((run.0 ≡ (again_after 5, repo))
            ⊎ ((e : ApiError) × (env.written k ≡ err e)
                × (is_not_found e ≡ false)
                × (run.0 ≡ (stopped (api e), repo))))
  unfolding reconcile_revision create_download_job delete_stale_cleanup_job ◌>>=◌ pure ask
  reconcile_revision_stale name stale job unready named cleanup_named missing found =
      let k : History =
        delete_job namespace stale ∷ get_job namespace stale ∷ get_job namespace name ∷ h in
      let rs = find_revision_status repo rev.name in
      rw (unready, named, missing, cleanup_named, found)
        (stale_calls name rs (env.written k) k, stale_outcome name rs (env.written k) k)
