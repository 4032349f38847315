-- ===== src/EngineController/Deletion.antt =====
-- `handleDeletion`: the engine's volumes and claims go, the repositories forget the engine, and its
-- finalizer is removed last.
pub mod Calls
use aitrigram.Base.{String, List, [], ◌∷◌, map, Bool, true, false, Option, none, some}
use aitrigram.Base.Results.{Result, ok, err}
use aitrigram.Api.Engine.{ModelReference, LlmEngine}
use aitrigram.Cluster.{Reply, M, pure, ask, ◌>>=◌, ◌>>◌, get_engine, update_engine}
use aitrigram.Library.{Library}
use aitrigram.EngineStorage.{EngineStorageError, cleanup_llm_engine_storage}
use aitrigram.EngineController.References.{update_referenced_engines}
use aitrigram.RepositoryController.Revisions.{Error, api, panics}

abbrev pub llm_engine_finalizer : String
llm_engine_finalizer = "llmengine.aitrigram.cliver-project.github.io/finalizer"

abbrev name_of : ModelReference → String
name_of ref = ref.name

abbrev pub model_names : LlmEngine → List String
model_names engine = map name_of engine.spec.model_refs

unfoldable pub without_finalizer : Library → LlmEngine → LlmEngine
without_finalizer lib engine = record engine {
  metadata = record engine.metadata {
    finalizers = lib.remove_finalizer engine.finalizers llm_engine_finalizer;
  };
}

module _ (lib : Library) (engine : LlmEngine) where
  -- An error of a cleanup is logged and dropped; a panic ends the deletion.
  has_panicked : Result EngineStorageError (Unit {0}) → Bool
  has_panicked (err EngineStorageError.panics) = true
  has_panicked _ = false

  unless_panicked : M (Result Error (Unit {0})) → Bool → M (Result Error (Unit {0}))
  unless_panicked m true = pure (err panics)
  unless_panicked m false = m

  update_fresh : Reply LlmEngine → M (Reply (Unit {0}))
  unfolding without_finalizer
  update_fresh (err e) = pure (err e)
  update_fresh (ok fresh) =
      ask (update_engine (without_finalizer lib fresh)) (λ env h. env.written h)

  remove_attempt : M (Reply (Unit {0}))
  unfolding update_fresh
  remove_attempt = do
    fresh ← ask (get_engine engine.namespace engine.name) (λ env h. env.engine h)
    update_fresh fresh

  api_result : Reply (Unit {0}) → Result Error (Unit {0})
  api_result (ok u) = ok u
  api_result (err e) = err (api e)

  forget_engine : M (Result Error (Unit {0}))
  unfolding remove_attempt api_result
  forget_engine = do
    update_referenced_engines lib (model_names engine)
    reply ← lib.retry_on_conflict remove_attempt
    pure (api_result reply)

  clean_up_from : List String → M (Result Error (Unit {0}))
  unfolding forget_engine has_panicked unless_panicked
  clean_up_from [] = forget_engine
  clean_up_from (repo ∷ repos) = do
    cleaned ← cleanup_llm_engine_storage lib engine repo
    unless_panicked (clean_up_from repos) (has_panicked cleaned)

  unfoldable pub handle_deletion : M (Result Error (Unit {0}))
  unfolding clean_up_from
  handle_deletion = clean_up_from (model_names engine)
