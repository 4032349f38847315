-- ===== src/EngineStorage.antt =====
-- The read-only storage of an engine: `EnsureLLMEngineStorage` and `CleanupLLMEngineStorage`
-- (internal/controller/storage/llmengine_storage.go). The volume and its claim have one name.
pub mod Writes
pub mod Ends
pub mod Cleanup
pub mod Sweep
pub mod Foreign
mod Tests
use aitrigram.Base.{
  String, List, [], ◌∷◌, Bool, true, false, not, Option, none, some, if◌then◌else◌, Bytes, Map,
}
use aitrigram.Base.Results.{Result, ok, err}
use aitrigram.Api.Repository.{BackendReference, StorageStatus, ModelRepository}
use aitrigram.Api.Engine.{LlmEngine}
use aitrigram.Names.Truncated.{llm_engine_pv_name, llm_engine_pvc_name}
use aitrigram.Storage.Discovery.{read_only_many}
use aitrigram.Storage.ReadOnly.{PersistentVolumeSpec, BuildError, build_read_only_pv_spec}
use aitrigram.Storage.ReadOnly
use aitrigram.Provider.{get_or_default_mount_path}
use aitrigram.Cluster.{
  ApiError, is_not_found, Reply, M, pure, ask, ◌>>=◌, get_volume, create_volume, update_volume,
  delete_volume, get_claim, create_claim, update_claim, delete_claim,
}
use aitrigram.Cluster.Objects.{PersistentVolumeClaim, ClaimPhase, claim_pending, claim_bound}
use aitrigram.Cluster.Workloads.{EngineVolume}
use aitrigram.Library.{Library}

abbrev pub llm_engine_storage_finalizer : String
llm_engine_storage_finalizer = "llmengine.aitrigram.cliver-project.github.io/storage-protection"

-- LLMEngineStorageResult
pub record EngineStorageResult : Type 0 where
  pub pvc_name : Bytes
  pub mount_path : String

-- `panics` is a panic of a name or of resource.MustParse, `waiting` a claim that was just created.
pub data EngineStorageError : Type 0 where
  unavailable panics waiting not_bound : EngineStorageError
  build_failed : BuildError → EngineStorageError
  check_volume_failed create_volume_failed check_claim_failed create_claim_failed :
      ApiError → EngineStorageError
  update_failed delete_failed : ApiError → EngineStorageError

labels : LlmEngine → String → Map String
labels engine repo =
    ("app.kubernetes.io/managed-by", "aitrigram-operator")
    ∷ ("llmengine.aitrigram.cliver-project.github.io", engine.name)
    ∷ ("aitrigram.io/model-repo", repo)
    ∷ []

unfoldable pub volume_of :
    Library → LlmEngine → (repo : String) → (name : Bytes) → PersistentVolumeSpec → EngineVolume
unfolding labels
volume_of lib engine repo name spec = record {
  name = name;
  labels = labels engine repo;
  finalizers = lib.add_finalizer [] llm_engine_storage_finalizer;
  spec = spec;
  claim = (engine.namespace, name);
  reclaim_policy = "Retain";
}

unfoldable pub engine_claim_of :
    Library
    → LlmEngine
    → (repo : String) → (name : Bytes) → (capacity : String) → PersistentVolumeClaim
unfolding labels
engine_claim_of lib engine repo name capacity = record {
  name = name;
  namespace = engine.namespace;
  labels = labels engine repo;
  finalizers = lib.add_finalizer [] llm_engine_storage_finalizer;
  access_modes = read_only_many ∷ [];
  storage_class = none;
  requested = capacity;
  volume_name = name;
  phase = claim_pending;
  capacity = none;
}

abbrev is_bound : ClaimPhase → Bool
is_bound claim_bound = true
is_bound _ = false

abbrev Outcome : Type 0
Outcome = Result EngineStorageError EngineStorageResult

module _ (lib : Library) (engine : LlmEngine) (repo : ModelRepository) where
  created_claim : Reply (Unit {0}) → Outcome
  created_claim (ok _) = err waiting
  created_claim (err e) = err (create_claim_failed e)

  found_claim : Bytes → PersistentVolumeClaim → Outcome
  found_claim name existing =
      if is_bound existing.phase
      then ok (record {
        pvc_name = name;
        mount_path = get_or_default_mount_path repo.spec.storage.mount_path;
      })
      else err not_bound

  claim_answer : Bytes → String → Reply PersistentVolumeClaim → M Outcome
  claim_answer name capacity (ok existing) = pure (found_claim name existing)
  claim_answer name capacity (err e) =
      if not (is_not_found e) then pure (err (check_claim_failed e)) else do
        reply ←
            ask (create_claim (engine_claim_of lib engine repo.name name capacity))
              (λ env h. env.written h)
        pure (created_claim reply)

  -- The claim is built, which panics for a capacity that is no quantity, and looked for.
  ensure_claim : Bytes → String → M Outcome
  ensure_claim name capacity = if not (lib.parses capacity) then pure (err panics) else do
    existing ← ask (get_claim engine.namespace name) (λ env h. env.claim h)
    claim_answer name capacity existing

  created_volume : Bytes → String → Reply (Unit {0}) → M Outcome
  created_volume name capacity (ok _) = ensure_claim name capacity
  created_volume name capacity (err e) = pure (err (create_volume_failed e))

  volume_answer : Bytes → String → PersistentVolumeSpec → Reply EngineVolume → M Outcome
  volume_answer name capacity spec (ok existing) = ensure_claim name capacity
  volume_answer name capacity spec (err e) =
      if not (is_not_found e) then pure (err (check_volume_failed e)) else do
        reply ←
            ask (create_volume (volume_of lib engine repo.name name spec)) (λ env h. env.written h)
        created_volume name capacity reply

  ensure_volume : Bytes → String → Result BuildError PersistentVolumeSpec → M Outcome
  ensure_volume name capacity (err BuildError.panics) = pure (err panics)
  ensure_volume name capacity (err BuildError.missing_detail) =
      pure (err (build_failed BuildError.missing_detail))
  ensure_volume name capacity (err BuildError.unsupported_backend) =
      pure (err (build_failed BuildError.unsupported_backend))
  ensure_volume name capacity (ok spec) = do
    existing ← ask (get_volume name) (λ env h. env.engine_volume h)
    volume_answer name capacity spec existing

  with_name : StorageStatus → BackendReference → Option Bytes → M Outcome
  with_name status backend none = pure (err panics)
  with_name status backend (some name) =
      ensure_volume name status.capacity (build_read_only_pv_spec lib.parses backend status)

  with_backend : StorageStatus → Option BackendReference → M Outcome
  with_backend status none = pure (err unavailable)
  with_backend status (some backend) =
      with_name status backend (llm_engine_pv_name engine.name repo.name)

  with_storage : Option StorageStatus → M Outcome
  with_storage none = pure (err unavailable)
  with_storage (some status) = with_backend status status.backend_ref

  unfoldable pub ensure_llm_engine_storage : M Outcome
  unfolding with_storage with_backend with_name ensure_volume volume_answer created_volume
      ensure_claim claim_answer found_claim created_claim
  ensure_llm_engine_storage = with_storage repo.status.storage

module _ (lib : Library) (engine : LlmEngine) where
  abbrev Cleaned : Type 0
  Cleaned = Result EngineStorageError (Unit {0})

  gone : Reply (Unit {0}) → Cleaned
  gone (ok _) = ok tt
  gone (err e) = if is_not_found e then ok tt else err (delete_failed e)

  released_volume : Bytes → Reply (Unit {0}) → M Cleaned
  released_volume name (err e) = pure (err (update_failed e))
  released_volume name (ok _) = do
    reply ← ask (delete_volume name) (λ env h. env.written h)
    pure (gone reply)

  release_volume : Bytes → Reply EngineVolume → M Cleaned
  release_volume name (err e) = pure (ok tt)
  release_volume name (ok existing) = do
    let kept = lib.remove_finalizer existing.finalizers llm_engine_storage_finalizer
    reply ← ask (update_volume (record existing { finalizers = kept })) (λ env h. env.written h)
    released_volume name reply

  cleanup_volume : Bytes → M Cleaned
  cleanup_volume name = do
    existing ← ask (get_volume name) (λ env h. env.engine_volume h)
    release_volume name existing

  deleted_claim : Bytes → Cleaned → M Cleaned
  deleted_claim name (err e) = pure (err e)
  deleted_claim name (ok _) = cleanup_volume name

  released_claim : Bytes → Reply (Unit {0}) → M Cleaned
  released_claim name (err e) = pure (err (update_failed e))
  released_claim name (ok _) = do
    reply ← ask (delete_claim engine.namespace name) (λ env h. env.written h)
    deleted_claim name (gone reply)

  release_claim : Bytes → Reply PersistentVolumeClaim → M Cleaned
  release_claim name (err e) = cleanup_volume name
  release_claim name (ok existing) = do
    let kept = lib.remove_finalizer existing.finalizers llm_engine_storage_finalizer
    reply ← ask (update_claim (record existing { finalizers = kept })) (λ env h. env.written h)
    released_claim name reply

  cleanup_named : Option Bytes → M Cleaned
  cleanup_named none = pure (err panics)
  cleanup_named (some name) = do
    existing ← ask (get_claim engine.namespace name) (λ env h. env.claim h)
    release_claim name existing

  unfoldable pub cleanup_llm_engine_storage : (repo : String) → M Cleaned
  unfolding cleanup_named release_claim released_claim deleted_claim cleanup_volume release_volume
      released_volume gone
  cleanup_llm_engine_storage repo = cleanup_named (llm_engine_pvc_name engine.name repo)
