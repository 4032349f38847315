-- ===== src/RepositoryController/Revisions/Loop.antt =====
-- `createDownloadJob`, `handleJobStatus`, `reconcileRevision` and the loop of `reconcileRevisions`.
pub mod Guards
pub mod Keeps
use aitrigram.Base.{
  String, List, [], ◌∷◌, Bool, true, false, ◌||◌, ◌&&◌, not, Option, none, some, ltb, if◌then◌else◌,
  is_empty, Bytes, bytes, concat,
}
use aitrigram.Base.Results.{Result, ok, err}
use aitrigram.Api.{condition_true, condition_false}
use aitrigram.Api.Repository.{
  DownloadPhase, pending, downloading, ready, failed, is_ready, is_downloading, RevisionStatus,
  RevisionReference, ModelRepository, condition_ready, reason_download_failed,
  reason_all_revisions_ready, reason_downloading,
}
use aitrigram.Names.Jobs.{download, cleanup, generate_job_name}
use aitrigram.Cluster.{
  ApiError, is_not_found, is_already_exists, Reply, M, pure, ask, ◌>>=◌, ◌>>◌, get_job, create_job,
}
use aitrigram.Cluster.Objects.{Job}
use aitrigram.Library.{Library}
use aitrigram.Provider.{StorageClassProvider}
use aitrigram.RepositoryController.Status.{
  find_revision_status, update_revision_status, set_condition,
}
use aitrigram.RepositoryController.Revisions.{
  Error, api, panics, CtrlResult, finished, requeue_after, get_desired_revisions, Outcome, done,
  again_after, stopped, Step, set_local_phase, ensure_revision_status, delete_stale_cleanup_job,
  create_revision_download_job,
}

abbrev names : ModelRepository → RevisionReference → Bytes × Bytes
names repo rev = (bytes repo.name, bytes rev.name)

-- A write through the pointer, if it points into the repository.
abbrev local_phase : Option RevisionStatus → DownloadPhase → ModelRepository → ModelRepository
local_phase none phase repo = repo
local_phase (some rs) phase repo = set_local_phase rs.name phase repo

pub data LoopEnd : Type 0 where
  ended : Result Error CtrlResult → LoopEnd
  all_done : Bool → ModelRepository → LoopEnd

-- What the loop does with a step: `rest` is the loop over the other revisions.
go_on : (Bool → ModelRepository → M LoopEnd) → Bool → Step → M LoopEnd
go_on rest any_running (done running, repo) = rest (any_running || running) repo
go_on rest any_running (again_after seconds, repo) = pure (ended (ok (requeue_after seconds)))
go_on rest any_running (stopped e, repo) = pure (ended (err e))

module _ (lib : Library) (namespace : String) where
  module _ (repo : ModelRepository) (rev : RevisionReference) (rs : Option RevisionStatus) where
    -- The status is written, an error dropped, and the revision comes to `outcome`.
    pub conclude : DownloadPhase → Outcome → M Step
    conclude phase outcome = do
      _ ← update_revision_status lib repo (ensure_revision_status rev rs phase)
      pure (outcome, local_phase rs phase repo)

    job_created : Reply (Unit {0}) → M Step
    job_created (ok _) = conclude downloading (done true)
    job_created (err e) =
        if is_already_exists e
        then conclude downloading (done true)
        else conclude failed (stopped (api e))

    submit : Reply Job → M Step
    submit (err e) = pure (stopped (api e), repo)
    submit (ok job) = do reply ← ask (create_job job) (λ env h. env.written h); job_created reply

    build_and_submit : Result ApiError Job → M Step
    build_and_submit (err e) = conclude failed (stopped (api e))
    build_and_submit (ok job) = submit (lib.set_controller_reference repo job)

    initialized : StorageClassProvider → Bytes → Reply (Unit {0}) → M Step
    initialized provider name (err e) = pure (stopped (api e), repo)
    initialized provider name (ok _) =
        build_and_submit (create_revision_download_job lib namespace repo provider rev name)

    initialize : Option RevisionStatus → M (Reply (Unit {0}))
    initialize (some _) = pure (ok tt)
    initialize none = update_revision_status lib repo (ensure_revision_status rev none pending)

    unstale : StorageClassProvider → Bytes → Result ApiError Bool → M Step
    unstale provider name (err e) = pure (stopped (api e), repo)
    unstale provider name (ok true) = pure (again_after 5, repo)
    unstale provider name (ok false) = do reply ← initialize rs; initialized provider name reply

    with_cleanup_name : StorageClassProvider → Bytes → Option Bytes → M Step
    with_cleanup_name provider name none = pure (stopped panics, repo)
    with_cleanup_name provider name (some stale) = do
      deleted ← delete_stale_cleanup_job lib namespace stale
      unstale provider name deleted

    unfoldable pub create_download_job : StorageClassProvider → Bytes → M Step
    unfolding with_cleanup_name unstale initialize initialized build_and_submit submit job_created
        conclude
    create_download_job provider name =
        with_cleanup_name provider name
          (generate_job_name cleanup (bytes repo.name) (bytes rev.name))

    written_ready : Reply (Unit {0}) → Outcome
    written_ready (ok _) = done false
    written_ready (err e) = stopped (api e)

    abbrev known_downloading : Option RevisionStatus → Bool
    known_downloading none = false
    known_downloading (some r) = is_downloading r.status

    job_succeeded : M Step
    job_succeeded = do
      reply ← update_revision_status lib repo (ensure_revision_status rev rs ready)
      pure (written_ready reply, local_phase rs ready repo)

    job_failed : M Step
    job_failed = do
      _ ← update_revision_status lib repo (ensure_revision_status rev rs failed)
      set_condition lib repo condition_ready condition_false reason_download_failed
          (concat "Download job failed for revision " rev.name)
      pure (again_after 300, local_phase rs failed repo)

    unfoldable pub handle_job_status : Job → M Step
    unfolding job_succeeded job_failed written_ready conclude
    handle_job_status job =
        if ltb 0 job.succeeded
        then job_succeeded
        else if ltb 0 job.failed
        then job_failed
        else if known_downloading rs
        then pure (done true, repo)
        else conclude downloading (done true)

    job_found : StorageClassProvider → Bytes → Reply Job → M Step
    job_found provider name (ok job) = handle_job_status job
    job_found provider name (err e) =
        if is_not_found e then create_download_job provider name else pure (stopped (api e), repo)

    with_job_name : StorageClassProvider → Option Bytes → M Step
    with_job_name provider none = pure (stopped panics, repo)
    with_job_name provider (some name) = do
      found ← ask (get_job namespace name) (λ env h. env.job h)
      job_found provider name found

  abbrev known_ready : Option RevisionStatus → Bool
  known_ready none = false
  known_ready (some r) = is_ready r.status

  unfoldable pub reconcile_revision :
      StorageClassProvider → ModelRepository → RevisionReference → M Step
  unfolding with_job_name job_found handle_job_status create_download_job
  reconcile_revision provider repo rev =
      let rs = find_revision_status repo rev.name in
      if known_ready rs
      then pure (done false, repo)
      else with_job_name repo rev rs provider
          (generate_job_name download (bytes repo.name) (bytes rev.name))

  -- The loop ends early, or with whether any job runs.
  unfoldable pub reconcile_each :
      StorageClassProvider → List RevisionReference → Bool → ModelRepository → M LoopEnd
  unfolding go_on
  reconcile_each provider [] any_running repo = pure (all_done any_running repo)
  reconcile_each provider (rev ∷ revs) any_running repo = do
    step ← reconcile_revision provider repo rev
    let rest = reconcile_each provider revs
    go_on rest any_running step

  all_ready : ModelRepository → List RevisionReference → Bool
  all_ready repo [] = true
  all_ready repo (rev ∷ revs) =
      known_ready (find_revision_status repo rev.name) && all_ready repo revs

  unfoldable pub update_overall_phase :
      ModelRepository → List RevisionReference → Bool → M (Unit {0})
  unfolding all_ready
  update_overall_phase repo desired any_running =
      if all_ready repo desired
      then set_condition lib repo condition_ready condition_true reason_all_revisions_ready
          "All revisions downloaded successfully"
      else if any_running
      then set_condition lib repo condition_ready condition_false reason_downloading
          "Downloading revisions"
      else pure tt

  after_loop : List RevisionReference → LoopEnd → M (Result Error CtrlResult)
  after_loop desired (ended result) = pure result
  after_loop desired (all_done any_running repo) = do
    update_overall_phase repo desired any_running
    pure (ok (if any_running then requeue_after 30 else finished))

  unfoldable pub reconcile_revisions :
      StorageClassProvider → ModelRepository → M (Result Error CtrlResult)
  unfolding after_loop
  reconcile_revisions provider repo =
      let desired = get_desired_revisions repo in
      if is_empty desired
      then pure (ok finished)
      else do end ← reconcile_each provider desired false repo; after_loop desired end
