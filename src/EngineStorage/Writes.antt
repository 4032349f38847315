-- ===== src/EngineStorage/Writes.antt =====
-- What preparing the storage of an engine may write.
use aitrigram.Base.{String, ◌≡◌, refl, [], ◌∷◌, Option, none, some, Bytes}
use aitrigram.Base.Results.{Result, ok, err}
use aitrigram.Api.Repository.{BackendReference, StorageStatus, ModelRepository}
use aitrigram.Api.Engine.{LlmEngine}
use aitrigram.Names.Truncated.{llm_engine_pv_name, llm_engine_pvc_name}
use aitrigram.Storage.Discovery.{read_only_many}
use aitrigram.Storage.ReadOnly.{PersistentVolumeSpec, BuildError, build_read_only_pv_spec}
use aitrigram.Storage.ReadOnly.RoundTrip.{IsReadOnly, build_read_only_pv_spec-IsReadOnly}
use aitrigram.Cluster.{Call, get_volume, create_volume, get_claim, create_claim, Reply}
use aitrigram.Cluster.Issues.{Issues, issues_rules}
use aitrigram.Cluster.Objects.{PersistentVolumeClaim}
use aitrigram.Cluster.Workloads.{EngineVolume}
use aitrigram.Library.{Library}
use aitrigram.EngineStorage.{
  volume_of, engine_claim_of, claim_answer, ensure_claim, created_volume, volume_answer,
  ensure_volume, with_name, with_backend, with_storage, ensure_llm_engine_storage,
}

-- A read of a volume or a claim, or a creation: of a volume under the name for the engine and the
-- repository that is kept when its claim goes, is for the claim of that name in the engine's
-- namespace and is for reading only; or of that claim, for reading only and for that volume.
abbrev pub IsMirror : LlmEngine → (repo : String) → Call → Type 0
IsMirror engine repo (get_volume _) = Unit
IsMirror engine repo (get_claim _ _) = Unit
IsMirror engine repo (create_volume v) =
    (llm_engine_pv_name engine.name repo ≡ some v.name)
    × (v.claim ≡ (engine.namespace, v.name))
    × (v.reclaim_policy ≡ "Retain")
    × (v.spec.access_modes ≡ read_only_many ∷ [])
    × IsReadOnly v.spec.source
IsMirror engine repo (create_claim c) =
    (llm_engine_pvc_name engine.name repo ≡ some c.name)
    × (c.namespace ≡ engine.namespace)
    × (c.volume_name ≡ c.name)
    × (c.access_modes ≡ read_only_many ∷ [])
IsMirror engine repo _ = ⊥

module _ (lib : Library) (engine : LlmEngine) (repo : ModelRepository) (name : Bytes)
    (named : llm_engine_pv_name engine.name repo.name ≡ some name) where
  claim-IsMirror :
      (capacity : String)
      → IsMirror engine repo.name
          (create_claim (engine_claim_of lib engine repo.name name capacity))
  unfolding engine_claim_of llm_engine_pv_name llm_engine_pvc_name
  claim-IsMirror capacity = (named, refl, refl, refl)

  claim_answer-Issues :
      (capacity : String) (reply : Reply PersistentVolumeClaim)
      → Issues (IsMirror engine repo.name) (claim_answer lib engine repo name capacity reply)
  unfolding claim_answer
  claim_answer-Issues capacity (ok existing) = search issues_rules
  claim_answer-Issues capacity (err e) = search (issues_rules, claim-IsMirror)

  ensure_claim-Issues :
      (capacity : String)
      → Issues (IsMirror engine repo.name) (ensure_claim lib engine repo name capacity)
  unfolding ensure_claim
  ensure_claim-Issues capacity = search (issues_rules, claim_answer-Issues, tt)

  module _ (capacity : String) (spec : PersistentVolumeSpec)
      (rox : spec.access_modes ≡ read_only_many ∷ []) (safe : IsReadOnly spec.source) where
    volume-IsMirror :
        IsMirror engine repo.name (create_volume (volume_of lib engine repo.name name spec))
    unfolding volume_of
    volume-IsMirror = (named, refl, refl, rox, safe)

    created_volume-Issues :
        (reply : Reply (Unit {0}))
        → Issues (IsMirror engine repo.name) (created_volume lib engine repo name capacity reply)
    unfolding created_volume
    created_volume-Issues (ok u) = ensure_claim-Issues capacity
    created_volume-Issues (err e) = search issues_rules

    volume_answer-Issues :
        (reply : Reply EngineVolume)
        → Issues
            (IsMirror engine repo.name)
            (volume_answer lib engine repo name capacity spec reply)
    unfolding volume_answer
    volume_answer-Issues (ok existing) = ensure_claim-Issues capacity
    volume_answer-Issues (err e) = search (issues_rules, created_volume-Issues, volume-IsMirror)

  ensure_volume-Issues :
      (capacity : String) (backend : BackendReference) (status : StorageStatus)
      (built : Result BuildError PersistentVolumeSpec)
      → build_read_only_pv_spec lib.parses backend status ≡ built
      → Issues (IsMirror engine repo.name) (ensure_volume lib engine repo name capacity built)
  unfolding ensure_volume
  ensure_volume-Issues capacity backend status (err BuildError.panics) e = search issues_rules
  ensure_volume-Issues capacity backend status (err BuildError.missing_detail) e =
      search issues_rules
  ensure_volume-Issues capacity backend status (err BuildError.unsupported_backend) e =
      search issues_rules
  ensure_volume-Issues capacity backend status (ok spec) e =
      let (rox, safe, good) = build_read_only_pv_spec-IsReadOnly lib.parses backend status spec e in
      search (issues_rules, volume_answer-Issues capacity spec rox safe, tt)

module _ (lib : Library) (engine : LlmEngine) (repo : ModelRepository) where
  with_name-Issues :
      (status : StorageStatus) (backend : BackendReference) (name : Option Bytes)
      → llm_engine_pv_name engine.name repo.name ≡ name
      → Issues (IsMirror engine repo.name) (with_name lib engine repo status backend name)
  unfolding with_name
  with_name-Issues status backend none e = search issues_rules
  with_name-Issues status backend (some name) e =
      ensure_volume-Issues lib engine repo name e status.capacity backend status _ refl

  with_storage-Issues :
      (storage : Option StorageStatus)
      → Issues (IsMirror engine repo.name) (with_storage lib engine repo storage)
  unfolding with_storage with_backend
  with_storage-Issues none = search issues_rules
  with_storage-Issues (some status) = backend-Issues status status.backend_ref
    where
      backend-Issues :
          (status : StorageStatus) (backend : Option BackendReference)
          → Issues (IsMirror engine repo.name) (with_backend lib engine repo status backend)
      backend-Issues status none = search issues_rules
      backend-Issues status (some backend) = with_name-Issues status backend _ refl

  -- Whatever the cluster answers and whatever backend was recorded, preparing the storage of an
  -- engine reads volumes and claims, and creates nothing but a volume that is for reading only,
  -- with the flag for it set where its source has one, that keeps its data when it is released
  -- and is reserved for one claim in the engine's namespace, and that claim, for reading only; it
  -- changes and deletes nothing.
  pub ensure_llm_engine_storage-Issues :
      Issues (IsMirror engine repo.name) (ensure_llm_engine_storage lib engine repo)
  unfolding ensure_llm_engine_storage
  ensure_llm_engine_storage-Issues = with_storage-Issues repo.status.storage
