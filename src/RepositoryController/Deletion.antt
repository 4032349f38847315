-- ===== src/RepositoryController/Deletion.antt =====
-- `handleDeletion`: a repository goes once no engine refers to it.
pub mod Guard
use aitrigram.Base.{
  String, List, [], ◌∷◌, map, Bool, true, false, ◌||◌, Option, none, some, any, if◌then◌else◌, ◌==◌,
  concat,
}
use aitrigram.Base.Results.{Result, ok, err}
use aitrigram.Api.{condition_false}
use aitrigram.Api.Repository.{ModelRepository, condition_ready, reason_deletion_blocked}
use aitrigram.Api.Engine.{LlmEngine, ModelReference}
use aitrigram.Cluster.{
  ApiError, Reply, M, pure, ask, ◌>>=◌, ◌>>◌, list_engines, list_jobs, delete_job, get_repository,
  update_repository,
}
use aitrigram.Cluster.Objects.{Job}
use aitrigram.Library.{Library}
use aitrigram.Provider.{StorageClassProvider, cleanup}
use aitrigram.RepositoryController.Status.{set_condition}
use aitrigram.RepositoryController.Revisions.{Error, api, deletion_blocked}

abbrev pub model_repository_finalizer : String
model_repository_finalizer = "modelrepository.aitrigram.cliver-project.github.io/finalizer"

unfoldable pub refers_to : String → LlmEngine → Bool
refers_to repo engine = any (λ (ref : ModelReference). ref.name == repo) engine.spec.model_refs

-- The names of the engines that refer to the repository.
unfoldable pub dependent_engines : String → List LlmEngine → List String
unfolding refers_to
dependent_engines repo [] = []
dependent_engines repo (e ∷ es) =
    let rest = dependent_engines repo es in if refers_to repo e then e.name ∷ rest else rest

api_result : Reply (Unit {0}) → Result Error (Unit {0})
api_result (ok u) = ok u
api_result (err e) = err (api e)

spaced : List String → String
spaced [] = ""
spaced (s ∷ []) = s
spaced (s ∷ t ∷ ts) = concat s (concat " " (spaced (t ∷ ts)))

-- fmt's %v of a list of strings stands in brackets.
deletion_message : List String → String
unfolding spaced
deletion_message engines =
    concat "Cannot delete: still referenced by LLMEngines: ["
      (concat (spaced engines) "]. Please delete the LLMEngines first or remove the modelRef.")

unfoldable pub without_finalizer : Library → ModelRepository → ModelRepository
without_finalizer lib repo = record repo {
  metadata = record repo.metadata {
    finalizers = lib.remove_finalizer repo.finalizers model_repository_finalizer;
  };
}

module _ (lib : Library) (namespace : String) (repo : ModelRepository) where
  update_fresh : Reply ModelRepository → M (Reply (Unit {0}))
  unfolding without_finalizer
  update_fresh (err e) = pure (err e)
  update_fresh (ok fresh) =
      ask (update_repository (without_finalizer lib fresh)) (λ env h. env.written h)

  -- One attempt to remove the finalizer, from a fresh copy.
  remove_attempt : M (Reply (Unit {0}))
  remove_attempt = do
    fresh ← ask (get_repository repo.name) (λ env h. env.repository h)
    update_fresh fresh

  -- Every deletion's error is dropped.
  delete_jobs : List Job → M (Unit {0})
  delete_jobs [] = pure tt
  delete_jobs (job ∷ jobs) = do
    _ ← ask (delete_job job.namespace job.name) (λ env h. env.written h)
    delete_jobs jobs

  delete_listed : Reply (List Job) → M (Unit {0})
  delete_listed (err e) = pure tt
  delete_listed (ok jobs) = delete_jobs jobs

  clean_up : Option StorageClassProvider → M (Unit {0})
  clean_up none = pure tt
  clean_up (some provider) = do _ ← cleanup lib provider namespace; pure tt

  proceed : Option StorageClassProvider → M (Result Error (Unit {0}))
  proceed provider = do
    jobs ← ask (list_jobs namespace repo.name) (λ env h. env.jobs h)
    delete_listed jobs
    clean_up provider
    reply ← lib.retry_on_conflict remove_attempt
    pure (api_result reply)

  block : List String → M (Result Error (Unit {0}))
  unfolding deletion_message
  block engines = do
    set_condition lib repo condition_ready condition_false reason_deletion_blocked
        (deletion_message engines)
    pure (err (deletion_blocked engines))

  unless_referenced : Option StorageClassProvider → List String → M (Result Error (Unit {0}))
  unless_referenced provider [] = proceed provider
  unless_referenced provider (e ∷ es) = block (e ∷ es)

  with_engines : Option StorageClassProvider → Reply (List LlmEngine) → M (Result Error (Unit {0}))
  with_engines provider (err e) = pure (err (api e))
  with_engines provider (ok engines) =
      unless_referenced provider (dependent_engines repo.name engines)

  unfoldable pub handle_deletion : Option StorageClassProvider → M (Result Error (Unit {0}))
  unfolding with_engines unless_referenced block proceed clean_up delete_listed delete_jobs
      remove_attempt update_fresh api_result dependent_engines
  handle_deletion provider = do
    engines ← ask list_engines (λ env h. env.engines h)
    with_engines provider engines
