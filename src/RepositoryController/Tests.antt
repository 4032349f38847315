-- ===== src/RepositoryController/Tests.antt =====
-- The theorems about the controller of repositories at concrete inputs.
use aitrigram.Base.{
  ◌≡◌, refl, ◌≢◌, ◌⊎◌, List, [], ◌∷◌, true, false, none, some, arith, eq_iff, bytes, if◌then◌else◌,
  ◌==◌,
}
use aitrigram.Base.Results.{Result, ok, err}
use aitrigram.Api.{Condition, condition_true, condition_false, is_true}
use aitrigram.Api.Repository.{
  unset, ready, failed, downloading, RevisionStatus, RevisionReference, ModelRepositoryStatus,
  ModelRepository, condition_ready, reason_downloading,
}
use aitrigram.Api.Engine.{LlmEngine}
use aitrigram.Names.Jobs.{download, cleanup, generate_job_name}
use aitrigram.Cluster.{
  Call, ApiError, not_found, is_not_found, get_job, create_job, delete_job, list_engines,
  get_repository, Env, History, ◌>>=◌, ◌>>◌, pure, ask,
}
use aitrigram.Cluster.Sample.{bare}
use aitrigram.Cluster.Issues.{Adds}
use aitrigram.Cluster.Objects.{Job}
use aitrigram.Library.Sample.{blank_job, sample, sample-SetsConditions, sample-RetriesOnConflict}
use aitrigram.JobAdapter.{adapt_model_repository_job}
use aitrigram.Provider.{StorageClassProvider, new_storage_class_provider}
use aitrigram.Storage.Discovery.{StorageClassInfo, read_write_many}
use aitrigram.RepositoryController.Status.{
  derive_model_repo_phase, with_condition, find_revision_status, find_revision, put_revision,
}
use aitrigram.RepositoryController.Status.Phases.{
  with_condition-ready, with_condition-other, find_revision-put_revision,
}
use aitrigram.RepositoryController.Status.Writes.{IsStatusCall}
use aitrigram.RepositoryController.Revisions.{
  deletion_blocked, again_after, done, stopped, api, create_revision_download_job,
}
use aitrigram.RepositoryController.Revisions.Loop.{reconcile_revision}
use aitrigram.RepositoryController.Revisions.Loop.Guards.{
  reconcile_revision_running, reconcile_revision_stale, reconcile_revision_creates,
}
use aitrigram.Provider.Keeps.{IsKeeping}
use aitrigram.RepositoryController.Reconcile.{reconcile}
use aitrigram.RepositoryController.Reconcile.Keeps.{reconcile_keeps}
use aitrigram.RepositoryController.Deletion.{refers_to, dependent_engines, handle_deletion}
use aitrigram.RepositoryController.Deletion.Guard.{
  IsReferenced, handle_deletion_blocked, handle_deletion_succeeds,
}

abbrev empty_status : ModelRepositoryStatus
empty_status = record {
  phase = unset;
  conditions = [];
  storage = none;
  available_revisions = [];
  referenced_engines = "";
}

abbrev not_ready : Condition
not_ready = record {
  type = "Ready";
  status = condition_false;
  reason = "Downloading";
  message = "";
}

abbrev stored : Condition
stored = record { type = "StorageReady"; status = condition_true; reason = "x"; message = "" }

with_condition-ready_example : (with_condition sample not_ready empty_status).phase ≡ (
    if is_true condition_false
    then ready
    else if not_ready.reason == reason_downloading
    then downloading
    else failed)
with_condition-ready_example =
    with_condition-ready sample sample-SetsConditions not_ready empty_status refl

storage-ne-ready : stored.type ≢ condition_ready
storage-ne-ready e = ground (arith, eq_iff "StorageReady" "Ready")

with_condition-other_example :
    (with_condition sample stored empty_status).phase ≡ derive_model_repo_phase sample []
with_condition-other_example =
    with_condition-other sample sample-SetsConditions stored empty_status storage-ne-ready

abbrev main_downloading : RevisionStatus
main_downloading = record { name = "main"; commit_hash = "main"; status = downloading }

find_revision-put_revision_example :
    find_revision "main" (put_revision main_downloading [])
    ≡ (if main_downloading.name == "main" then some main_downloading else find_revision "main" [])
find_revision-put_revision_example = find_revision-put_revision "main" main_downloading []

abbrev repo : ModelRepository
repo = record {
  metadata = record { name = "llama"; namespace = ""; deleting = false; finalizers = [] };
  spec = record {
    model_name = "llama";
    source = record {
      origin = "huggingface";
      model_id = "meta/llama";
      revision = "";
      revisions = [];
      hf_token_secret = "";
      hf_token_secret_key = "";
    };
    storage = record { size = "5Gi"; mount_path = ""; storage_class = "" };
    auto_download = true;
    download_image = "";
    download_scripts = "";
    delete_scripts = "";
    node_selector = [];
  };
  status = record empty_status { available_revisions = main_downloading ∷ [] };
}

abbrev main : RevisionReference
main = record { name = "main"; ref = "main" }

abbrev shared_class : StorageClassInfo
shared_class = record {
  name = "nfs-client";
  provisioner = "nfs";
  type = "nfs";
  access_mode = read_write_many;
  is_default = false;
}

abbrev provider : StorageClassProvider
provider = new_storage_class_provider repo shared_class

abbrev engine : LlmEngine
engine = record {
  metadata = record { name = "chat"; namespace = "apps"; deleting = false; finalizers = [] };
  spec = record {
    engine_type = "vllm";
    model_refs = record { name = "llama"; revision = ""; update_policy = "" } ∷ [];
    image = "";
    args = [];
    env = [];
    port = 8080;
    service_port = 8080;
    replicas = none;
    node_selector = [];
    resources = none;
    gpu = none;
    host_ipc = false;
  };
  status = record { phase = ""; conditions = []; model_repositories = [] };
}

-- A cluster that has one repository and the given engines, and that answers about jobs by `jobs`.
abbrev cluster : List LlmEngine → (History → Result ApiError Job) → Env
cluster engines jobs = record bare {
  repository = λ h. ok repo;
  engines = λ h. ok engines;
  job = jobs;
}

abbrev no_jobs : Env
no_jobs = cluster [] (λ h. err not_found)

abbrev running_job : Env
running_job = cluster [] (λ h. ok blank_job)

-- The newest call decides: only the cleanup job is there.
abbrev only_second : History → Result ApiError Job
only_second (_ ∷ _ ∷ _) = ok blank_job
only_second _ = err not_found

abbrev stale_job : Env
stale_job = cluster [] only_second

abbrev referenced : Env
referenced = cluster (engine ∷ []) (λ h. err not_found)

is_referenced : IsReferenced "llama" (engine ∷ [])
unfolding refers_to
is_referenced = refl

handle_deletion_blocked_example :
    ((handle_deletion sample "default" repo none referenced []).0
      ≡ err (deletion_blocked (dependent_engines "llama" (engine ∷ []))))
    × Adds IsStatusCall
        (list_engines ∷ [])
        (handle_deletion sample "default" repo none referenced []).1
handle_deletion_blocked_example =
    handle_deletion_blocked sample "default" repo none referenced [] (engine ∷ [])
      sample-RetriesOnConflict refl is_referenced

deletion_runs : (handle_deletion sample "default" repo none no_jobs []).0 ≡ ok tt
unfolding handle_deletion ◌>>=◌ pure ask ◌>>◌
deletion_runs = refl

handle_deletion_succeeds_example :
    (engines : List LlmEngine) × (no_jobs.engines (list_engines ∷ []) ≡ ok engines)
    × ¬ IsReferenced "llama" engines
handle_deletion_succeeds_example =
    handle_deletion_succeeds sample "default" repo none no_jobs [] deletion_runs

download_name :
    generate_job_name download (bytes "llama") (bytes "main") ≡ some (bytes "download-llama-main")
unfolding generate_job_name
download_name = refl

cleanup_name :
    generate_job_name cleanup (bytes "llama") (bytes "main") ≡ some (bytes "cleanup-llama-main")
unfolding generate_job_name
cleanup_name = refl

abbrev download_call : Call
download_call = get_job "default" (bytes "download-llama-main")

abbrev cleanup_call : Call
cleanup_call = get_job "default" (bytes "cleanup-llama-main")

reconcile_revision_running_example :
    Adds IsStatusCall
      (download_call ∷ [])
      (reconcile_revision sample "default" provider repo main running_job []).1
unfolding find_revision_status find_revision
reconcile_revision_running_example =
    reconcile_revision_running sample "default" sample-RetriesOnConflict repo main provider
      running_job [] (bytes "download-llama-main") blank_job refl download_name refl

abbrev deletion_call : Call
deletion_call = delete_job "default" (bytes "cleanup-llama-main")

reconcile_revision_stale_example :
    let k : History = deletion_call ∷ cleanup_call ∷ download_call ∷ [] in
    let run = reconcile_revision sample "default" provider repo main stale_job [] in
    (run.1 ≡ k)
    × ((run.0 ≡ (again_after 5, repo))
        ⊎ ((e : ApiError) × (stale_job.written k ≡ err e)
            × (is_not_found e ≡ false)
            × (run.0 ≡ (stopped (api e), repo))))
unfolding find_revision_status find_revision
reconcile_revision_stale_example =
    reconcile_revision_stale sample "default" repo main provider stale_job []
      (bytes "download-llama-main") (bytes "cleanup-llama-main") blank_job refl download_name
      cleanup_name refl refl

abbrev job_or_blank : Result ApiError Job → Job
job_or_blank (ok job) = job
job_or_blank (err e) = blank_job

abbrev built : Job
built =
    job_or_blank (
      create_revision_download_job sample "default" repo provider main
        (bytes "download-llama-main"))

is_built :
    create_revision_download_job sample "default" repo provider main (bytes "download-llama-main")
    ≡ ok built
unfolding create_revision_download_job adapt_model_repository_job
is_built = refl

abbrev owned : Job
owned = record built { owner = "llama" }

reconcile_revision_creates_example :
    ((reconcile_revision sample "default" provider repo main no_jobs []).0.0 ≡ done true)
    × Adds IsStatusCall
        (create_job owned ∷ cleanup_call ∷ download_call ∷ [])
        (reconcile_revision sample "default" provider repo main no_jobs []).1
unfolding find_revision_status find_revision
reconcile_revision_creates_example =
    reconcile_revision_creates sample "default" sample-RetriesOnConflict repo main provider no_jobs
      [] (bytes "download-llama-main") (bytes "cleanup-llama-main") main_downloading built owned
      refl refl download_name cleanup_name refl refl is_built refl refl

reconcile_keeps_example :
    Adds IsKeeping (get_repository "llama" ∷ []) (reconcile sample "default" "llama" no_jobs []).1
reconcile_keeps_example =
    reconcile_keeps sample "default" sample-RetriesOnConflict "llama" repo no_jobs [] refl refl
