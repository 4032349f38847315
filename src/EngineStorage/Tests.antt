-- ===== src/EngineStorage/Tests.antt =====
-- The theorems about the storage of engines at concrete inputs.
use aitrigram.Base.{◌≡◌, refl, [], ◌∷◌, some, none, Bytes, bytes, true, lookup}
use aitrigram.Base.Results.{ok, err}
use aitrigram.Api.Repository.{BackendReference, StorageStatus, ModelRepository}
use aitrigram.Api.Engine.{LlmEngine}
use aitrigram.Api.Sample.{chat_engine, stored_repository}
use aitrigram.Names.Truncated.{truncated_name, llm_engine_pv_name, llm_engine_pvc_name}
use aitrigram.Storage.Discovery.{read_only_many}
use aitrigram.Storage.ReadOnly.{PersistentVolumeSpec, read_only_source, build_read_only_pv_spec}
use aitrigram.Storage.Backend.{nfs}
use aitrigram.Provider.{get_or_default_mount_path}
use aitrigram.Cluster.{
  get_volume, update_volume, delete_volume, get_claim, not_found, Env, pure, ask, ◌>>=◌,
}
use aitrigram.Cluster.Sample.{bare}
use aitrigram.Cluster.Issues.{Issues}
use aitrigram.Cluster.Objects.{PersistentVolumeClaim, claim_bound}
use aitrigram.Cluster.Workloads.{EngineVolume}
use aitrigram.Library.Sample.{sample}
use aitrigram.EngineStorage.{
  EngineStorageResult, panics, volume_of, engine_claim_of, ensure_llm_engine_storage,
  cleanup_llm_engine_storage,
}
use aitrigram.EngineStorage.Writes.{IsMirror, ensure_llm_engine_storage-Issues}
use aitrigram.EngineStorage.Cleanup.{IsCleanup, cleanup_llm_engine_storage-Issues}
use aitrigram.EngineStorage.Foreign.{without_protection, cleanup_llm_engine_storage-foreign}
use aitrigram.EngineStorage.Ends.{
  IsBoundClaim, ensure_llm_engine_storage-ok, ensure_llm_engine_storage-panics,
}

ensure_llm_engine_storage-Issues_example :
    Issues
      (IsMirror chat_engine "llama")
      (ensure_llm_engine_storage sample chat_engine stored_repository)
ensure_llm_engine_storage-Issues_example =
    ensure_llm_engine_storage-Issues sample chat_engine stored_repository

cleanup_llm_engine_storage-Issues_example :
    Issues
      (IsCleanup sample chat_engine "llama")
      (cleanup_llm_engine_storage sample chat_engine "llama")
cleanup_llm_engine_storage-Issues_example =
    cleanup_llm_engine_storage-Issues sample chat_engine "llama"

abbrev mirror : Bytes
mirror = bytes "le-chat-llama"

abbrev mirror_spec : PersistentVolumeSpec
mirror_spec = record {
  capacity = "5Gi";
  access_modes = read_only_many ∷ [];
  source = nfs "10.0.0.1" "/exports" true;
  node_affinity = none;
}

abbrev bound : PersistentVolumeClaim
bound = record (engine_claim_of sample chat_engine "llama" mirror "5Gi") { phase = claim_bound }

abbrev mirrored : Env
mirrored = record bare {
  engine_volume = λ h. ok (volume_of sample chat_engine "llama" mirror mirror_spec);
  claim = λ h. ok bound;
}

abbrev prepared : EngineStorageResult
prepared = record { pvc_name = mirror; mount_path = "/models" }

is_prepared :
    (ensure_llm_engine_storage sample chat_engine stored_repository mirrored []).0 ≡ ok prepared
unfolding ensure_llm_engine_storage ◌>>=◌ pure ask llm_engine_pv_name build_read_only_pv_spec
    engine_claim_of truncated_name read_only_source lookup get_or_default_mount_path
is_prepared = refl

ensure_llm_engine_storage-ok_example :
    (name : Bytes) × (llm_engine_pv_name "chat" "llama" ≡ some name)
    × IsBoundClaim sample chat_engine stored_repository mirrored prepared name
ensure_llm_engine_storage-ok_example =
    ensure_llm_engine_storage-ok sample chat_engine stored_repository mirrored prepared []
      is_prepared

abbrev nfs_backend : BackendReference
nfs_backend = record {
  type = "nfs";
  details = ("server", "10.0.0.1") ∷ ("exportPath", "/exports") ∷ [];
}

-- The capacity is not recorded yet.
abbrev sizeless : StorageStatus
sizeless = record {
  storage_class = "nfs";
  access_mode = "ReadWriteMany";
  volume_mode = "Filesystem";
  backend_ref = some nfs_backend;
  bound_node_name = "";
  capacity = "";
}

abbrev sizeless_repository : ModelRepository
sizeless_repository = record stored_repository {
  status = record stored_repository.status { storage = some sizeless };
}

abbrev default_spec : PersistentVolumeSpec
default_spec = record mirror_spec { capacity = "10Gi" }

mirror_name : llm_engine_pv_name "chat" "llama" ≡ some mirror
unfolding llm_engine_pv_name truncated_name
mirror_name = refl

default_built : build_read_only_pv_spec sample.parses nfs_backend sizeless ≡ ok default_spec
unfolding build_read_only_pv_spec read_only_source lookup
default_built = refl

ensure_llm_engine_storage-panics_example :
    ensure_llm_engine_storage sample chat_engine sizeless_repository mirrored []
    ≡ (err panics, get_volume mirror ∷ [])
ensure_llm_engine_storage-panics_example =
    ensure_llm_engine_storage-panics sample chat_engine sizeless_repository mirrored [] sizeless
      nfs_backend mirror default_spec (volume_of sample chat_engine "llama" mirror mirror_spec) refl
      refl mirror_name default_built refl refl

-- The engine of the same name in another namespace, whose volume has the same name.
abbrev other_engine : LlmEngine
other_engine = record chat_engine { metadata = record chat_engine.metadata { namespace = "other" } }

abbrev other_volume : EngineVolume
other_volume = volume_of sample other_engine "llama" mirror mirror_spec

abbrev shared_name : Env
shared_name = record bare { engine_volume = λ h. ok other_volume }

claim_name : llm_engine_pvc_name "chat" "llama" ≡ some mirror
unfolding llm_engine_pvc_name truncated_name
claim_name = refl

cleanup_llm_engine_storage-foreign_example :
    (cleanup_llm_engine_storage sample chat_engine "llama" shared_name []).1
    ≡ delete_volume mirror
      ∷ update_volume (without_protection sample other_volume)
      ∷ get_volume mirror
      ∷ get_claim "apps" mirror
      ∷ []
cleanup_llm_engine_storage-foreign_example =
    cleanup_llm_engine_storage-foreign sample chat_engine "llama" shared_name [] mirror other_volume
      not_found claim_name refl refl refl
