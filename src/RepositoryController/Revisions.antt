-- ===== src/RepositoryController/Revisions.antt =====
-- The downloads of a repository's revisions: `getDesiredRevisions`, `reconcileRevisions`,
-- `reconcileRevision`, `createDownloadJob`, `handleJobStatus`, `updateOverallPhase`,
-- `deleteStaleCleanupJob`, `createRevisionDownloadJob`. The repository that the loop holds is passed
-- on, since the code writes into its status through a pointer.
pub mod Loop
use aitrigram.Base.{
  ℕ, zero, suc, String, List, [], ◌∷◌, Bool, true, false, ◌||◌, not, Option, none, some, ltb,
  if◌then◌else◌, ◌==◌, Bytes, bytes, concat, is_blank, is_empty,
}
use aitrigram.Base.Results as Results
use aitrigram.Base.Results.{Result, ok, err}
use aitrigram.Api.{condition_true, condition_false}
use aitrigram.Api.Repository.{
  DownloadPhase, pending, downloading, ready, failed, is_ready, is_downloading, RevisionStatus,
  RevisionReference, ModelRepository, ModelRepositoryStatus, hugging_face, ollama, condition_ready,
  reason_download_failed, reason_all_revisions_ready, reason_downloading,
}
use aitrigram.Names.Jobs.{download, cleanup, generate_job_name}
use aitrigram.Cluster.{
  ApiError, is_not_found, is_already_exists, Reply, M, pure, ask, ◌>>=◌, ◌>>◌, get_job, create_job,
  delete_job,
}
use aitrigram.Cluster.Objects.{Job}
use aitrigram.Library.{Library}
use aitrigram.Provider.{StorageClassProvider}
use aitrigram.JobAdapter.{adapt_model_repository_job}
use aitrigram.RepositoryController.Status.{
  find_revision_status, update_revision_status, set_condition, sync_status,
}

-- A reconciliation panics where a job's name does.
pub data Error : Type 0 where
  api : ApiError → Error
  deletion_blocked : List String → Error
  panics : Error

-- ctrl.Result: nothing more to do, again at once, or again after some seconds.
pub data CtrlResult : Type 0 where
  finished requeue : CtrlResult
  requeue_after : ℕ → CtrlResult

-- r.OperatorNamespace, with its default
unfoldable pub namespace_or_default : String → String
namespace_or_default operator = if is_blank operator then "default" else operator

unfoldable pub get_current_revision : ModelRepository → String
get_current_revision repo =
    let source = repo.spec.source in
    if not (is_blank source.revision)
    then source.revision
    else if source.origin == hugging_face
    then "main"
    else if source.origin == ollama
    then "latest"
    else "main"

unfoldable pub get_desired_revisions : ModelRepository → List RevisionReference
unfolding get_current_revision
get_desired_revisions repo =
    let rev = get_current_revision repo in
    if is_empty repo.spec.source.revisions
    then record { name = rev; ref = rev } ∷ []
    else repo.spec.source.revisions

-- What one revision comes to: done, with a job running or not; a requeue; an error.
pub data Outcome : Type 0 where
  done : Bool → Outcome
  again_after : ℕ → Outcome
  stopped : Error → Outcome

abbrev pub Step : Type 0
Step = Outcome × ModelRepository

-- *revStatus = …, where revStatus points at the first entry of that name.
set_phase_in : String → DownloadPhase → List RevisionStatus → List RevisionStatus
set_phase_in name phase [] = []
set_phase_in name phase (r ∷ rs) =
    if r.name == name then record r { status = phase } ∷ rs else r ∷ set_phase_in name phase rs

unfoldable pub set_local_phase : String → DownloadPhase → ModelRepository → ModelRepository
unfolding set_phase_in
set_local_phase name phase repo = record repo {
  status = record repo.status {
    available_revisions = set_phase_in name phase repo.status.available_revisions;
  };
}

-- ensureRevStatus: the entry, or a new one that no list holds.
unfoldable pub ensure_revision_status :
    RevisionReference → Option RevisionStatus → DownloadPhase → RevisionStatus
ensure_revision_status rev none phase = record {
  name = rev.name;
  commit_hash = rev.ref;
  status = phase;
}
ensure_revision_status rev (some rs) phase = record rs { status = phase }

-- The namespace of the jobs is the operator's, or the default.
module _ (lib : Library) (namespace : String) where
  stale_deleted : Reply (Unit {0}) → Result ApiError Bool
  stale_deleted (ok _) = ok true
  stale_deleted (err e) = if is_not_found e then ok true else err e

  delete_found : Bytes → Reply Job → M (Result ApiError Bool)
  delete_found name (err e) = pure (if is_not_found e then ok false else err e)
  delete_found name (ok job) = do
    reply ← ask (delete_job namespace name) (λ env h. env.written h)
    pure (stale_deleted reply)

  -- Whether a cleanup job was found, and then deleted.
  unfoldable pub delete_stale_cleanup_job : Bytes → M (Result ApiError Bool)
  unfolding delete_found stale_deleted
  delete_stale_cleanup_job name = do
    found ← ask (get_job namespace name) (λ env h. env.job h)
    delete_found name found

  -- createRevisionDownloadJob: the manifest, adapted.
  unfoldable pub create_revision_download_job :
      ModelRepository → StorageClassProvider → RevisionReference → Bytes → Result ApiError Job
  create_revision_download_job repo provider rev name =
      Results.◌>>=◌ (lib.download_job_manifest repo.spec.source.origin) (λ job.
        adapt_model_repository_job lib
          (record {
            repository = repo;
            provider = provider;
            revision_ref = some rev;
            job_name = name;
            namespace = namespace;
            custom_image = repo.spec.download_image;
            custom_script = repo.spec.download_scripts;
          })
          (record job { namespace = namespace }) download)
