-- ===== src/RepositoryController/Revisions/Loop/Keeps.antt =====
-- What the downloads may do to the cluster.
use aitrigram.Base.{String, List, [], ◌∷◌, Bool, true, false, Option, none, some, Bytes}
use aitrigram.Base.Results.{Result, ok, err}
use aitrigram.Api.{ConditionStatus}
use aitrigram.Api.Repository.{
  DownloadPhase, pending, RevisionStatus, RevisionReference, ModelRepository,
}
use aitrigram.Cluster.{Call, update_claim, delete_claim, ApiError, Reply, M}
use aitrigram.Cluster.Objects.{Job}
use aitrigram.Cluster.Issues.{Issues, issues_rules, Issues-imp, Issues-bind}
use aitrigram.Library.{Library, RetriesOnConflict}
use aitrigram.Provider.{StorageClassProvider}
use aitrigram.Provider.Keeps.{IsKeeping}
use aitrigram.RepositoryController.Status.{set_condition}
use aitrigram.RepositoryController.Status.Writes.{IsStatusCall, set_condition-Issues}
use aitrigram.RepositoryController.Revisions.{
  Outcome, done, again_after, stopped, Step, ensure_revision_status, delete_found,
  delete_stale_cleanup_job,
}
use aitrigram.RepositoryController.Revisions.Loop.{
  conclude, job_created, submit, build_and_submit, initialized, initialize, unstale,
  with_cleanup_name, create_download_job, handle_job_status, job_found, with_job_name,
  reconcile_revision, go_on, reconcile_each, LoopEnd, ended, all_done, update_overall_phase,
  after_loop, reconcile_revisions,
}
use aitrigram.RepositoryController.Revisions.Loop.Guards.{
  handle_job_status-Issues, conclude-Issues, update_revision_status-Issues,
}

pub IsKeeping-of-IsStatusCall : (c : Call) → IsStatusCall c → IsKeeping c
IsKeeping-of-IsStatusCall (update_claim _) p = p
IsKeeping-of-IsStatusCall (delete_claim _ _) p = p
IsKeeping-of-IsStatusCall _ p = tt

module _ (lib : Library) (namespace : String) (retries : RetriesOnConflict lib) where
  pub set_condition_keeps :
      (repo : ModelRepository) (type : String) (status : ConditionStatus) (reason message : String)
      → Issues IsKeeping (set_condition lib repo type status reason message)
  set_condition_keeps repo type status reason message =
      Issues-imp _ IsKeeping-of-IsStatusCall
        (set_condition-Issues lib repo type status reason message retries)

  delete_found_keeps :
      (name : Bytes) (found : Reply Job) → Issues IsKeeping (delete_found lib namespace name found)
  unfolding delete_found
  delete_found_keeps name (err e) = search issues_rules
  delete_found_keeps name (ok job) = search (issues_rules, tt)

  delete_stale_cleanup_job_keeps :
      (name : Bytes) → Issues IsKeeping (delete_stale_cleanup_job lib namespace name)
  unfolding delete_stale_cleanup_job
  delete_stale_cleanup_job_keeps name = search (issues_rules, delete_found_keeps, tt)

  module _ (repo : ModelRepository) (rev : RevisionReference) (rs : Option RevisionStatus) where
    conclude_keeps :
        (phase : DownloadPhase) (outcome : Outcome)
        → Issues IsKeeping (conclude lib namespace repo rev rs phase outcome)
    conclude_keeps phase outcome =
        Issues-imp _ IsKeeping-of-IsStatusCall
          (conclude-Issues lib namespace retries repo rev rs phase outcome)

    handle_job_status_keeps :
        (job : Job) → Issues IsKeeping (handle_job_status lib namespace repo rev rs job)
    handle_job_status_keeps job =
        Issues-imp _ IsKeeping-of-IsStatusCall
          (handle_job_status-Issues lib namespace retries repo rev rs job)

    job_created_keeps :
        (reply : Reply (Unit {0})) → Issues IsKeeping (job_created lib namespace repo rev rs reply)
    unfolding job_created
    job_created_keeps (ok u) = search (issues_rules, conclude_keeps)
    job_created_keeps (err e) = search (issues_rules, conclude_keeps)

    submit_keeps : (job : Reply Job) → Issues IsKeeping (submit lib namespace repo rev rs job)
    unfolding submit
    submit_keeps (err e) = search issues_rules
    submit_keeps (ok job) = search (issues_rules, job_created_keeps, tt)

    build_and_submit_keeps :
        (job : Result ApiError Job)
        → Issues IsKeeping (build_and_submit lib namespace repo rev rs job)
    unfolding build_and_submit
    build_and_submit_keeps (err e) = search (issues_rules, conclude_keeps)
    build_and_submit_keeps (ok job) = search (issues_rules, submit_keeps)

    initialized_keeps :
        (provider : StorageClassProvider) (name : Bytes) (reply : Reply (Unit {0}))
        → Issues IsKeeping (initialized lib namespace repo rev rs provider name reply)
    unfolding initialized
    initialized_keeps provider name (err e) = search issues_rules
    initialized_keeps provider name (ok u) = search (issues_rules, build_and_submit_keeps)

  initialize_keeps :
      (repo : ModelRepository) (rev : RevisionReference) (known rs : Option RevisionStatus)
      → Issues IsKeeping (initialize lib namespace repo rev known rs)
  unfolding initialize
  initialize_keeps repo rev known (some r) = search issues_rules
  initialize_keeps repo rev known none = Issues-imp _ IsKeeping-of-IsStatusCall (
      update_revision_status-Issues lib namespace retries repo rev
        (ensure_revision_status rev none pending))

  module _ (provider : StorageClassProvider) (repo : ModelRepository) (rev : RevisionReference)
      (rs : Option RevisionStatus) where
    unstale_keeps :
        (name : Bytes) (deleted : Result ApiError Bool)
        → Issues IsKeeping (unstale lib namespace repo rev rs provider name deleted)
    unfolding unstale
    unstale_keeps name (err e) = search issues_rules
    unstale_keeps name (ok true) = search issues_rules
    unstale_keeps name (ok false) = search (issues_rules, initialize_keeps, initialized_keeps)

    with_cleanup_name_keeps :
        (name : Bytes) (stale : Option Bytes)
        → Issues IsKeeping (with_cleanup_name lib namespace repo rev rs provider name stale)
    unfolding with_cleanup_name
    with_cleanup_name_keeps name none = search issues_rules
    with_cleanup_name_keeps name (some stale) =
        search (issues_rules, delete_stale_cleanup_job_keeps, unstale_keeps)

    create_download_job_keeps :
        (name : Bytes)
        → Issues IsKeeping (create_download_job lib namespace repo rev rs provider name)
    unfolding create_download_job
    create_download_job_keeps name = search (issues_rules, with_cleanup_name_keeps)

    job_found_keeps :
        (name : Bytes) (found : Reply Job)
        → Issues IsKeeping (job_found lib namespace repo rev rs provider name found)
    unfolding job_found
    job_found_keeps name (ok job) = search (issues_rules, handle_job_status_keeps)
    job_found_keeps name (err e) = search (issues_rules, create_download_job_keeps)

    with_job_name_keeps :
        (name : Option Bytes)
        → Issues IsKeeping (with_job_name lib namespace repo rev rs provider name)
    unfolding with_job_name
    with_job_name_keeps none = search issues_rules
    with_job_name_keeps (some name) = search (issues_rules, job_found_keeps, tt)

  module _ (provider : StorageClassProvider) where
    reconcile_revision_keeps :
        (repo : ModelRepository) (rev : RevisionReference)
        → Issues IsKeeping (reconcile_revision lib namespace provider repo rev)
    unfolding reconcile_revision
    reconcile_revision_keeps repo rev = search (issues_rules, with_job_name_keeps)

    go_on_keeps :
        (rest : Bool → ModelRepository → M LoopEnd) (any_running : Bool) (step : Step)
        → ((b : Bool) (r : ModelRepository) → Issues IsKeeping (rest b r))
        → Issues IsKeeping (go_on rest any_running step)
    unfolding go_on
    go_on_keeps rest any_running (done running, repo) keeps = keeps _ repo
    go_on_keeps rest any_running (again_after seconds, repo) keeps = search issues_rules
    go_on_keeps rest any_running (stopped e, repo) keeps = search issues_rules

    reconcile_each_keeps :
        (revs : List RevisionReference) (any_running : Bool) (repo : ModelRepository)
        → Issues IsKeeping (reconcile_each lib namespace provider revs any_running repo)
    unfolding reconcile_each
    reconcile_each_keeps [] any_running repo = search issues_rules
    reconcile_each_keeps (rev ∷ revs) any_running repo =
        Issues-bind _ _ (reconcile_revision_keeps repo rev) (λ step.
          go_on_keeps (reconcile_each lib namespace provider revs) any_running step
            (reconcile_each_keeps revs))

    update_overall_phase_keeps :
        (repo : ModelRepository) (desired : List RevisionReference) (any_running : Bool)
        → Issues IsKeeping (update_overall_phase lib namespace repo desired any_running)
    unfolding update_overall_phase
    update_overall_phase_keeps repo desired any_running = search (issues_rules, set_condition_keeps)

    after_loop_keeps :
        (desired : List RevisionReference) (end : LoopEnd)
        → Issues IsKeeping (after_loop lib namespace desired end)
    unfolding after_loop
    after_loop_keeps desired (ended result) = search issues_rules
    after_loop_keeps desired (all_done any_running repo) =
        search (issues_rules, update_overall_phase_keeps)

    pub reconcile_revisions_keeps :
        (repo : ModelRepository)
        → Issues IsKeeping (reconcile_revisions lib namespace provider repo)
    unfolding reconcile_revisions
    reconcile_revisions_keeps repo = search (issues_rules, reconcile_each_keeps, after_loop_keeps)
