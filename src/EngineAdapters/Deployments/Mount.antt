-- ===== src/EngineAdapters/Deployments/Mount.antt =====
-- The model's storage in the pods of an engine.
use aitrigram.Base.{
  String, ◌≡◌, refl, ◌∙◌, List, [], ◌∷◌, ◌++◌, true, false, Option, none, some, arith,
  if◌then◌else◌, ◌==◌, eq_iff, inl, inr, Bool-cases, or_else,
}
use aitrigram.Api.Engine.{engine_vllm}
use aitrigram.Cluster.Workloads.{PodVolumeSource, claim, PodVolume, PodMount, Deployment}
use aitrigram.EngineAdapters.Environment.{get_storage_paths}
use aitrigram.EngineAdapters.Deployments.{
  EngineContext, is_vllm_config, rename_config_map, get_vllm_config_map_name, volumes_of,
  adapt_container, adapt_pod, adapted, adapt_deployment,
}
use aitrigram.EngineAdapters.Deployments.Shape.{adapt_deployment-eq-some}

-- The first volume of a name, and the first mount.
unfoldable pub find_volume : String → List PodVolume → Option PodVolumeSource
find_volume name [] = none
find_volume name (v ∷ vs) = if v.name == name then some v.source else find_volume name vs

unfoldable pub find_mount : String → List PodMount → Option PodMount
find_mount name [] = none
find_mount name (m ∷ ms) = if m.name == name then some m else find_mount name ms

find_volume-append :
    (name : String) (vs ws : List PodVolume)
    → find_volume name (vs ++ ws) ≡ or_else (find_volume name vs) (find_volume name ws)
unfolding find_volume
find_volume-append name [] ws = refl
find_volume-append name (v ∷ vs) ws = ground (arith, find_volume-append name vs ws)

find_mount-append :
    (name : String) (vs ws : List PodMount)
    → find_mount name (vs ++ ws) ≡ or_else (find_mount name vs) (find_mount name ws)
unfolding find_mount
find_mount-append name [] ws = refl
find_mount-append name (v ∷ vs) ws = ground (arith, find_mount-append name vs ws)

find_volume-rename_config_map :
    (name new : String) (vs : List PodVolume)
    → name == "vllm-config" ≡ false
    → find_volume name (rename_config_map new vs) ≡ find_volume name vs
unfolding find_volume rename_config_map is_vllm_config
find_volume-rename_config_map name new [] other = refl
find_volume-rename_config_map name new (v ∷ vs) other = ground (
  arith,
  find_volume-rename_config_map name new vs other,
  eq_iff v.name name,
  eq_iff v.name "vllm-config",
  eq_iff name "vllm-config",
)

model_volume :
    (ctx : EngineContext) (template : List PodVolume)
    → find_volume "model-storage" template ≡ none
    → find_volume "model-storage" (volumes_of ctx template) ≡ some (claim ctx.model_pvc_name true)
unfolding volumes_of find_volume
model_volume ctx template fresh =
    let added : PodVolume = record {
      name = "model-storage";
      source = claim ctx.model_pvc_name true;
    } in
    let found = find_volume-append "model-storage" template (added ∷ []) in
    let new = get_vllm_config_map_name ctx.engine.name ctx.repository.name in
    let renamed = find_volume-rename_config_map "model-storage" new (template ++ added ∷ []) refl in
    elim (Bool-cases (ctx.engine.spec.engine_type == engine_vllm)) [
      | inl vllm ↦ rw (vllm, renamed, found, fresh) refl
      | inr another ↦ rw (another, found, fresh) refl
    ]

-- Where the template has neither a volume nor a mount named model-storage: an engine's deployment
-- mounts the claim that was made for the model, read-only both at the volume and at the mount, and at
-- the path under which the repository stores its models.
pub adapt_deployment-mounts :
    (ctx : EngineContext) (d d' : Deployment)
    → adapt_deployment ctx d ≡ some d'
    → find_volume "model-storage" d.pod.volumes ≡ none
    → find_mount "model-storage" d.pod.container.mounts ≡ none
    → (find_volume "model-storage" d'.pod.volumes ≡ some (claim ctx.model_pvc_name true))
      × (find_mount "model-storage" d'.pod.container.mounts
          ≡ some (record {
            name = "model-storage";
            mount_path = (get_storage_paths ctx.engine ctx.repository).0;
            read_only = true;
          }))
unfolding adapted adapt_pod adapt_container find_mount
adapt_deployment-mounts ctx d d' h no_volume no_mount =
    let (name, e, same) = adapt_deployment-eq-some ctx d d' h in
    let added : PodMount = record {
      name = "model-storage";
      mount_path = (get_storage_paths ctx.engine ctx.repository).0;
      read_only = true;
    } in
    rw (← same) (
      model_volume ctx d.pod.volumes no_volume,
      find_mount-append "model-storage" d.pod.container.mounts (added ∷ []) ∙ rw no_mount refl,
    )
