-- ===== src/EngineController/Loops/Serves.antt =====
-- What the deployment of a model serves from.
use aitrigram.Base.{◌≡◌, sym, ap, ◌∙◌, true, none, some, Bytes}
use aitrigram.Base.Results.{ok, ok-injective}
use aitrigram.Api.Repository.{ModelRepository}
use aitrigram.Api.Engine.{LlmEngine}
use aitrigram.Names.Truncated.{llm_engine_pv_name}
use aitrigram.Cluster.{Env, History}
use aitrigram.Cluster.Workloads.{claim, Deployment, Manifest, of_deployment}
use aitrigram.Library.{Library}
use aitrigram.EngineAdapters.Deployments.Mount.{find_volume, find_mount, adapt_deployment-mounts}
use aitrigram.EngineStorage.{EngineStorageResult, ensure_llm_engine_storage}
use aitrigram.EngineStorage.Ends.{IsBoundClaim, ensure_llm_engine_storage-ok}
use aitrigram.EngineWorkload.{Component, new_model_component}
use aitrigram.EngineWorkload.Reconcile.{build_deployment}
use aitrigram.EngineWorkload.Reconcile.Builds.{build_deployment-eq-ok}
use aitrigram.EngineController.Loops.{context_of}

-- Where the template has neither a volume nor a mount named model-storage: the deployment that is
-- applied for a model whose storage was prepared is one, owned by the engine, whose pods have a
-- volume model-storage: it is, read-only, the claim under the name for the engine and the
-- repository, and a read of that claim in the engine's namespace found it bound while the storage
-- was prepared.
pub build_deployment-serves :
    (lib : Library) (engine : LlmEngine) (r : ModelRepository) (env : Env) (h : History)
    (s : EngineStorageResult) (w : Component) (t : Deployment) (m : Manifest)
    → (ensure_llm_engine_storage lib engine r env h).0 ≡ ok s
    → new_model_component lib engine r ≡ some w
    → lib.deployment_manifest engine.spec.engine_type ≡ ok t
    → find_volume "model-storage" t.pod.volumes ≡ none
    → find_mount "model-storage" t.pod.container.mounts ≡ none
    → build_deployment lib (context_of lib engine r s) w ≡ ok m
    → (d : Deployment) × (name : Bytes) × (lib.own engine (of_deployment d) ≡ ok m)
      × (find_volume "model-storage" d.pod.volumes ≡ some (claim name true))
      × (llm_engine_pv_name engine.name r.name ≡ some name)
      × IsBoundClaim lib engine r env s name
unfolding context_of
build_deployment-serves lib engine r env h s w t m prepared made template no_volume no_mount built =
    let (name, named, found) = ensure_llm_engine_storage-ok lib engine r env s h prepared in
    let (t', d, template', adapted, owned) =
      build_deployment-eq-ok lib (context_of lib engine r s) w m made built in
    let same : t ≡ t' = ok-injective t t' (sym template ∙ template') in
    let (volume, mount) =
      adapt_deployment-mounts (context_of lib engine r s)
        (record t' { namespace = engine.namespace }) d adapted (rw (← same) no_volume)
        (rw (← same) no_mount) in
    (d, name, owned, volume ∙ ap (λ n. some (claim n true)) found.0, named, found)
