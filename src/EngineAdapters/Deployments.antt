-- ===== src/EngineAdapters/Deployments.antt =====
-- `AdaptDeployment` (internal/controller/adapters/llmengine_deployment_adapter.go) with
-- `BuildGPUResources`. The template has a container with a port, as both embedded templates do.
pub mod Shape
pub mod Placement
pub mod Mount
use aitrigram.Base.{
  ℕ, String, List, [], ◌∷◌, ◌++◌, Bool, true, false, Option, none, some, if◌then◌else◌, ◌==◌,
  nat_eq, concat, decimal, is_blank, is_empty, Bytes, Map, insert, insert_all,
}
use aitrigram.Api.Repository.{ModelRepository}
use aitrigram.Api.Engine.{
  engine_ollama, engine_vllm, EnvVar, GpuConfig, Toleration, LlmEngine, ResourceRequirements,
}
use aitrigram.Cluster.Workloads.{
  PodVolumeSource, claim, config_map, other, PodVolume, PodMount, Container, PodSpec, Deployment,
}
use aitrigram.Names.Truncated.{component_name}
use aitrigram.Storage.Node.{get_bound_node_name, requires_node_affinity}
use aitrigram.EngineAdapters.{
  detect_gpu_request, merge_env_vars, get_pod_port, merge_resource_requirements, insert_missing,
  build_gpu_node_selector, build_gpu_tolerations, or_default_type,
}
use aitrigram.EngineAdapters.Environment.{get_storage_paths, build_ollama_env, build_vllm_env}

-- component.LLMEngineContext
pub record EngineContext : Type 0 where
  pub engine : LlmEngine
  pub repository : ModelRepository
  pub namespace : String
  pub model_pvc_name : Bytes

unfoldable pub build_gpu_resources : GpuConfig → ResourceRequirements
unfolding or_default_type
build_gpu_resources gpu =
    let count = decimal (if nat_eq gpu.count 0 then 1 else gpu.count) in
    let amounts : Map String = (or_default_type gpu.type, count) ∷ [] in
    record { limits = amounts; requests = amounts }

abbrev pub labels_of : LlmEngine → ModelRepository → Map String
labels_of engine repo =
    ("app", engine.name) ∷ ("model", repo.name) ∷ ("engine-type", engine.spec.engine_type) ∷ []

-- The selector of the deployment and of the service.
abbrev pub selector_of : LlmEngine → ModelRepository → Map String
selector_of engine repo = ("app", engine.name) ∷ ("model", repo.name) ∷ []

image_of : LlmEngine → String
image_of engine =
    if is_blank engine.spec.image
    then (if engine.spec.engine_type == engine_ollama
        then "ollama/ollama:latest"
        else "vllm/vllm-openai:latest")
    else engine.spec.image

unfoldable pub build_vllm_args : ℕ → List String
build_vllm_args port =
    "--config" ∷ "/etc/vllm/vllm-config.yaml" ∷ "--host" ∷ "0.0.0.0" ∷ "--port" ∷ decimal port ∷ []

args_of : LlmEngine → List String → List String
args_of engine template =
    if engine.spec.engine_type == engine_vllm
    then build_vllm_args (get_pod_port engine)
    else if is_empty engine.spec.args
    then template
    else engine.spec.args

engine_env : LlmEngine → ModelRepository → List EnvVar
engine_env engine repo =
    if engine.spec.engine_type == engine_ollama
    then build_ollama_env engine repo (detect_gpu_request engine)
    else build_vllm_env engine repo (detect_gpu_request engine)

with_requested : Option ResourceRequirements → ResourceRequirements → ResourceRequirements
with_requested none base = base
with_requested (some asked) base = merge_resource_requirements base asked

-- The GPU's part of the resources, for a configuration that is enabled.
with_gpu : Option GpuConfig → ResourceRequirements → ResourceRequirements
with_gpu none base = base
with_gpu (some gpu) base =
    if gpu.enabled then merge_resource_requirements base (build_gpu_resources gpu) else base

unfoldable pub adapt_container : EngineContext → Container → Container
unfolding image_of args_of engine_env with_requested with_gpu
adapt_container ctx c =
    let engine = ctx.engine in
    let (path, paths) = get_storage_paths engine ctx.repository in
    record {
      image = image_of engine;
      args = args_of engine c.args;
      port = get_pod_port engine;
      env = merge_env_vars c.env (engine_env engine ctx.repository);
      resources = with_gpu engine.spec.gpu (with_requested engine.spec.resources c.resources);
      mounts =
          c.mounts ++ record { name = "model-storage"; mount_path = path; read_only = true } ∷ [];
    }

is_config_map : PodVolumeSource → Bool
is_config_map (claim name read_only) = false
is_config_map (config_map name) = true
is_config_map other = false

unfoldable pub get_vllm_config_map_name : (engine model : String) → String
get_vllm_config_map_name engine model =
    concat "vllm-" (concat engine (concat "-" (concat model "-config")))

is_vllm_config : PodVolume → Bool
unfolding is_config_map
is_vllm_config v = if v.name == "vllm-config" then is_config_map v.source else false

-- The first volume of that name that is a config map gets the new one.
rename_config_map : String → List PodVolume → List PodVolume
unfolding is_vllm_config
rename_config_map name [] = []
rename_config_map name (v ∷ vs) =
    let rest = rename_config_map name vs in
    if is_vllm_config v then record v { source = config_map name } ∷ vs else v ∷ rest

volumes_of : EngineContext → List PodVolume → List PodVolume
unfolding rename_config_map
volumes_of ctx template =
    let all =
      template ++ record { name = "model-storage"; source = claim ctx.model_pvc_name true } ∷ [] in
    if ctx.engine.spec.engine_type == engine_vllm
    then rename_config_map (get_vllm_config_map_name ctx.engine.name ctx.repository.name) all
    else all

-- The storage's node first, then the GPU's labels; an empty selector leaves the template's.
storage_selector : ModelRepository → Map String
storage_selector repo =
    if requires_node_affinity repo
    then (if is_blank (get_bound_node_name repo)
        then []
        else ("kubernetes.io/hostname", get_bound_node_name repo) ∷ [])
    else []

with_gpu_selector : Option GpuConfig → LlmEngine → Map String → Map String
with_gpu_selector none engine selector = selector
with_gpu_selector (some gpu) engine selector =
    if gpu.enabled then insert_missing (build_gpu_node_selector gpu engine) selector else selector

or_template : Map String → Map String → Map String
or_template selector template = if is_empty selector then template else selector

tolerations_of : Option GpuConfig → List Toleration → List Toleration
tolerations_of none template = template
tolerations_of (some gpu) template = if gpu.enabled then build_gpu_tolerations gpu else template

unfoldable pub adapt_pod : EngineContext → PodSpec → PodSpec
unfolding volumes_of storage_selector with_gpu_selector or_template tolerations_of
adapt_pod ctx pod =
    let engine = ctx.engine in
    record {
      container = adapt_container ctx pod.container;
      volumes = volumes_of ctx pod.volumes;
      node_selector =
          or_template (with_gpu_selector engine.spec.gpu engine (storage_selector ctx.repository))
            pod.node_selector;
      tolerations = tolerations_of engine.spec.gpu pod.tolerations;
      host_ipc = if engine.spec.host_ipc then true else pod.host_ipc;
    }

replicas_or : Option ℕ → Option ℕ → Option ℕ
replicas_or none template = template
replicas_or (some n) template = some n

-- The deployment under a name.
pub adapted : EngineContext → Deployment → Bytes → Deployment
adapted ctx d name =
    let labels = labels_of ctx.engine ctx.repository in
    record d {
      name = name;
      labels = insert_all labels d.labels;
      selector = selector_of ctx.engine ctx.repository;
      template_labels = insert_all labels d.template_labels;
      replicas = replicas_or ctx.engine.spec.replicas d.replicas;
      pod = adapt_pod ctx d.pod;
    }

named : EngineContext → Deployment → Option Bytes → Option Deployment
named ctx d none = none
named ctx d (some name) = some (adapted ctx d name)

-- `none` where the component's name panics.
unfoldable pub adapt_deployment : EngineContext → Deployment → Option Deployment
unfolding named adapted replicas_or
adapt_deployment ctx d = named ctx d (component_name ctx.engine.name ctx.repository.name)
