-- ===== src/EngineController/Deletion/Calls.antt =====
-- What the deletion of an engine may do, and in which order.
use aitrigram.Base.{String, ◌≡◌, [], ◌∷◌, List, ◌⊎◌, Bytes, none, some}
use aitrigram.Base.Results.{Result, ok, err}
use aitrigram.Api.Engine.{LlmEngine}
use aitrigram.Names.Truncated.{llm_engine_pvc_name}
use aitrigram.Cluster.{ApiError, Call, get_claim, get_engine, update_engine, Env, History}
use aitrigram.Cluster.Issues.{Adds, Issues}
use aitrigram.Library.{Library}
use aitrigram.EngineStorage.Cleanup.{IsCleanup}
use aitrigram.EngineController.References.Records.{Updates}
use aitrigram.RepositoryController.Revisions.{Error, api, panics}
use aitrigram.EngineController.Deletion.{model_names, without_finalizer}

-- A read of the engine, or a write of an engine as it was read but without the finalizer.
abbrev pub IsRelease : Library → LlmEngine → Call → Type 0
IsRelease lib engine (get_engine namespace name) =
    (namespace ≡ engine.namespace) × (name ≡ engine.name)
IsRelease lib engine (update_engine e) = (fresh : LlmEngine) × (e ≡ without_finalizer lib fresh)
IsRelease lib engine _ = ⊥

-- The error of the last attempt, or success with the last two calls: the engine was read, and written
-- without the finalizer.
abbrev pub IsReleased : Library → LlmEngine → Env → Result Error (Unit {0}) → History → Type 0
IsReleased lib engine env result h =
    ((e : ApiError) × (result ≡ err (api e)))
    ⊎ ((fresh : LlmEngine) × (k : History) × (env.engine
            (get_engine engine.namespace engine.name ∷ k)
          ≡ ok fresh)
        × (h
            ≡ update_engine (without_finalizer lib fresh)
              ∷ get_engine engine.namespace engine.name
              ∷ k)
        × (env.written h ≡ ok tt)
        × (result ≡ ok tt))

-- The calls of a deletion for a list of repositories, from a history to a result and a later
-- history. Each repository in turn is swept: the claim that is named for it is read, and calls of its
-- cleanup follow. Then the repositories are updated, and last the engine is read and released. Where a claim has no name, the deletion panics there.
pub data Deletes (lib : Library) (engine : LlmEngine) (env : Env)
    : List String → History → Result Error (Unit {0}) → History → Type 0 where
  swept :
      (repo : String) (repos : List String) (name : Bytes) (h h' : History)
      {result : Result Error (Unit {0})} {h'' : History}
      → llm_engine_pvc_name engine.name repo ≡ some name
      → Adds (IsCleanup lib engine repo) (get_claim engine.namespace name ∷ h) h'
      → Deletes lib engine env repos h' result h''
      → Deletes lib engine env (repo ∷ repos) h result h''
  nameless :
      (repo : String) (repos : List String) (h : History)
      → llm_engine_pvc_name engine.name repo ≡ none
      → Deletes lib engine env (repo ∷ repos) h (err panics) h
  released :
      (h h' h'' : History) (result : Result Error (Unit {0}))
      → Updates env (model_names engine) h h'
      → Adds (IsRelease lib engine) (get_engine engine.namespace engine.name ∷ h') h''
      → IsReleased lib engine env result h''
      → Deletes lib engine env [] h result h''
