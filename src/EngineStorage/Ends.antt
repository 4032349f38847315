-- ===== src/EngineStorage/Ends.antt =====
-- What preparing the storage of an engine comes to.
use aitrigram.Base.{
  String, ◌≡◌, refl, sym, ap, ◌∙◌, ◌∷◌, true, false, Option, none, some, inl, inr, Bool-cases,
  Bytes,
}
use aitrigram.Base.Results.{Result, ok, err, Result-cases, ok-injective, ok-ne-err}
use aitrigram.Api.Repository.{BackendReference, StorageStatus, ModelRepository}
use aitrigram.Api.Engine.{LlmEngine}
use aitrigram.Names.Truncated.{llm_engine_pv_name}
use aitrigram.Storage.ReadOnly.{PersistentVolumeSpec, BuildError, build_read_only_pv_spec}
use aitrigram.Provider.{get_or_default_mount_path}
use aitrigram.Cluster.{
  is_not_found, Reply, Env, History, pure, ask, ◌>>=◌, get_volume, get_claim, create_claim,
}
use aitrigram.Cluster.Objects.{PersistentVolumeClaim}
use aitrigram.Cluster.Workloads.{EngineVolume}
use aitrigram.Library.{Library}
use aitrigram.EngineStorage.{
  EngineStorageResult, panics, is_bound, engine_claim_of, created_claim, found_claim, claim_answer,
  ensure_claim, created_volume, volume_answer, ensure_volume, with_name, with_backend, with_storage,
  ensure_llm_engine_storage,
}

module _ (lib : Library) (engine : LlmEngine) (repo : ModelRepository) (env : Env)
    (r : EngineStorageResult) where
  -- The claim of that name was read during the run and is bound.
  abbrev pub IsBoundClaim : Bytes → Type 0
  IsBoundClaim name =
      (r.pvc_name ≡ name)
      × (r.mount_path ≡ get_or_default_mount_path repo.spec.storage.mount_path)
      × (h : History) × (c : PersistentVolumeClaim) × (env.claim
            (get_claim engine.namespace name ∷ h)
          ≡ ok c)
      × (is_bound c.phase ≡ true)

  claim_answer-ok :
      (name : Bytes) (capacity : String) (reply : Reply PersistentVolumeClaim) (h : History)
      → env.claim (get_claim engine.namespace name ∷ h) ≡ reply
      → (claim_answer lib engine repo name capacity reply env
          (get_claim engine.namespace name ∷ h)).0
        ≡ ok r
      → IsBoundClaim name
  unfolding claim_answer found_claim created_claim ◌>>=◌ pure ask
  claim_answer-ok name capacity (ok existing) h read e =
      elim (Bool-cases (is_bound existing.phase)) [
        | inl bound ↦
            let same = ok-injective _ r (rw bound at e) in
            rw (← same) (refl, refl, h, existing, read, bound)
        | inr loose ↦ absurd (ok-ne-err (sym (rw loose at e)))
      ]
  claim_answer-ok name capacity (err x) h read e = elim (Bool-cases (is_not_found x)) [
    | inl missing ↦
        let call = create_claim (engine_claim_of lib engine repo.name name capacity) in
        elim (Result-cases (env.written (call ∷ get_claim engine.namespace name ∷ h))) [
          | inl (u, w) ↦ absurd (ok-ne-err (sym (rw (missing, w) at e)))
          | inr (x', w) ↦ absurd (ok-ne-err (sym (rw (missing, w) at e)))
        ]
    | inr another ↦ absurd (ok-ne-err (sym (rw another at e)))
  ]

  ensure_claim-ok :
      (name : Bytes) (capacity : String) (h : History)
      → (ensure_claim lib engine repo name capacity env h).0 ≡ ok r
      → IsBoundClaim name
  unfolding ensure_claim ◌>>=◌ pure ask
  ensure_claim-ok name capacity h e = elim (Bool-cases (lib.parses capacity)) [
    | inl good ↦ claim_answer-ok name capacity _ h refl (rw good at e)
    | inr bad ↦ absurd (ok-ne-err (sym (rw bad at e)))
  ]

  created_volume-ok :
      (name : Bytes) (capacity : String) (reply : Reply (Unit {0})) (h : History)
      → (created_volume lib engine repo name capacity reply env h).0 ≡ ok r
      → IsBoundClaim name
  unfolding created_volume pure
  created_volume-ok name capacity (ok u) h e = ensure_claim-ok name capacity h e
  created_volume-ok name capacity (err x) h e = cc

  volume_answer-ok :
      (name : Bytes) (capacity : String) (spec : PersistentVolumeSpec) (reply : Reply EngineVolume)
      (h : History)
      → (volume_answer lib engine repo name capacity spec reply env h).0 ≡ ok r
      → IsBoundClaim name
  unfolding volume_answer ◌>>=◌ pure ask
  volume_answer-ok name capacity spec (ok existing) h e = ensure_claim-ok name capacity h e
  volume_answer-ok name capacity spec (err x) h e = elim (Bool-cases (is_not_found x)) [
    | inl missing ↦ created_volume-ok name capacity _ _ (rw missing at e)
    | inr another ↦ absurd (ok-ne-err (sym (rw another at e)))
  ]

  ensure_volume-ok :
      (name : Bytes) (capacity : String) (built : Result BuildError PersistentVolumeSpec)
      (h : History)
      → (ensure_volume lib engine repo name capacity built env h).0 ≡ ok r
      → IsBoundClaim name
  unfolding ensure_volume ◌>>=◌ pure ask
  ensure_volume-ok name capacity (err BuildError.panics) h e = cc
  ensure_volume-ok name capacity (err BuildError.missing_detail) h e = cc
  ensure_volume-ok name capacity (err BuildError.unsupported_backend) h e = cc
  ensure_volume-ok name capacity (ok spec) h e = volume_answer-ok name capacity spec _ _ e

  abbrev IsNamedClaim : Option Bytes → Type 0
  IsNamedClaim found = (name : Bytes) × (found ≡ some name) × IsBoundClaim name

  with_name-ok :
      (status : StorageStatus) (backend : BackendReference) (found : Option Bytes) (h : History)
      → (with_name lib engine repo status backend found env h).0 ≡ ok r
      → IsNamedClaim found
  unfolding with_name pure
  with_name-ok status backend none h e = cc
  with_name-ok status backend (some name) h e =
      (name, refl, ensure_volume-ok name status.capacity _ h e)

  with_backend-ok :
      (status : StorageStatus) (backend : Option BackendReference) (h : History)
      → (with_backend lib engine repo status backend env h).0 ≡ ok r
      → IsNamedClaim (llm_engine_pv_name engine.name repo.name)
  unfolding with_backend pure
  with_backend-ok status none h e = cc
  with_backend-ok status (some backend) h e = with_name-ok status backend _ h e

  with_storage-ok :
      (storage : Option StorageStatus) (h : History)
      → (with_storage lib engine repo storage env h).0 ≡ ok r
      → IsNamedClaim (llm_engine_pv_name engine.name repo.name)
  unfolding with_storage pure
  with_storage-ok none h e = cc
  with_storage-ok (some status) h e = with_backend-ok status _ h e

  -- Where the storage of an engine is reported as prepared, the claim that is named is the one of
  -- the engine and the repository, a read of it during the run found it bound, and the mount path is
  -- the repository's or the default.
  pub ensure_llm_engine_storage-ok :
      (h : History)
      → (ensure_llm_engine_storage lib engine repo env h).0 ≡ ok r
      → (name : Bytes) × (llm_engine_pv_name engine.name repo.name ≡ some name) × IsBoundClaim name
  unfolding ensure_llm_engine_storage
  ensure_llm_engine_storage-ok h e = with_storage-ok repo.status.storage h e

module _ (lib : Library) (engine : LlmEngine) (repo : ModelRepository) (env : Env) where
  without_quantity :
      (name : Bytes) (capacity : String) (h : History)
      → lib.parses capacity ≡ false
      → ensure_claim lib engine repo name capacity env h ≡ (err panics, h)
  unfolding ensure_claim pure
  without_quantity name capacity h bad = rw bad refl

  -- Where a backend is recorded, the name for the engine and the repository exists, and the
  -- volume's spec can be built from the backend, which replaces a blank capacity: if the volume
  -- is there already and the recorded capacity is no quantity, the claim cannot be built, and it
  -- ends in a panic after the volume was read.
  pub ensure_llm_engine_storage-panics :
      (h : History) (status : StorageStatus) (backend : BackendReference) (name : Bytes)
      (spec : PersistentVolumeSpec) (volume : EngineVolume)
      → repo.status.storage ≡ some status
      → status.backend_ref ≡ some backend
      → llm_engine_pv_name engine.name repo.name ≡ some name
      → build_read_only_pv_spec lib.parses backend status ≡ ok spec
      → env.engine_volume (get_volume name ∷ h) ≡ ok volume
      → lib.parses status.capacity ≡ false
      → ensure_llm_engine_storage lib engine repo env h ≡ (err panics, get_volume name ∷ h)
  unfolding ensure_llm_engine_storage with_storage with_backend with_name ensure_volume
      volume_answer ensure_claim ◌>>=◌ ask pure
  ensure_llm_engine_storage-panics h status backend name spec volume stored recorded named built
        read bad =
      ap (λ (x : Option StorageStatus). with_storage lib engine repo x env h) stored
      ∙ ap (λ (x : Option BackendReference). with_backend lib engine repo status x env h) recorded
      ∙ ap (λ (x : Option Bytes). with_name lib engine repo status backend x env h) named
      ∙ ap
          (λ (x : Result BuildError PersistentVolumeSpec).
            ensure_volume lib engine repo name status.capacity x env h)
          built
      ∙ ap
          (λ (x : Reply EngineVolume).
            volume_answer lib engine repo name status.capacity spec x env (get_volume name ∷ h))
          read
      ∙ without_quantity name status.capacity (get_volume name ∷ h) bad
