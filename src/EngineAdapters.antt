-- ===== src/EngineAdapters.antt =====
-- How an engine's pods are put together: the environment, the ports, the resources, and the node
-- selectors and tolerations for GPUs (internal/controller/adapters/llmengine_utils.go).
pub mod Precedence
pub mod Environment
pub mod Deployments
pub mod Services
mod Tests
use aitrigram.Base.{
  ℕ, String, List, [], ◌∷◌, ◌++◌, Bool, true, false, Option, none, some, is_some, if◌then◌else◌,
  ◌==◌, nat_eq, concat, is_blank, is_empty, any, Map, lookup, insert, insert_all,
}
use aitrigram.Api.Engine.{
  engine_ollama, engine_vllm, EnvVar, GpuConfig, Toleration, LlmEngine, ResourceRequirements,
}

abbrev pub default_gpu_resource_type : String
default_gpu_resource_type = "nvidia.com/gpu"

is_enabled : Option GpuConfig → Bool
is_enabled none = false
is_enabled (some gpu) = gpu.enabled

pub detect_gpu_request : LlmEngine → Bool
unfolding is_enabled
detect_gpu_request engine = is_enabled engine.spec.gpu

-- userEnvMap[name]
pub is_defined : List EnvVar → String → Bool
is_defined [] name = false
is_defined (e ∷ es) name = let rest = is_defined es name in if e.name == name then true else rest

-- The default variables that the user does not override, in their order.
pub not_overridden : List EnvVar → List EnvVar → List EnvVar
not_overridden user [] = []
not_overridden user (e ∷ es) =
    let rest = not_overridden user es in if is_defined user e.name then rest else e ∷ rest

pub merge_env_vars : (default user : List EnvVar) → List EnvVar
merge_env_vars default user = user ++ not_overridden user default

pub get_pod_port : LlmEngine → ℕ
get_pod_port engine =
    if nat_eq engine.spec.port 0
    then (if engine.spec.engine_type == engine_ollama
        then 11434
        else if engine.spec.engine_type == engine_vllm
        then 8000
        else 8080)
    else engine.spec.port

pub get_service_port : LlmEngine → ℕ
get_service_port engine =
    if nat_eq engine.spec.service_port 0 then 8080 else engine.spec.service_port

pub merge_resource_requirements : (base additional : ResourceRequirements) → ResourceRequirements
merge_resource_requirements base additional = record {
  limits = insert_all additional.limits (insert_all base.limits []);
  requests = insert_all additional.requests (insert_all base.requests []);
}

unfoldable pub or_default_type : String → String
or_default_type type = if is_blank type then default_gpu_resource_type else type

pub get_default_gpu_node_selector : String → Map String
unfolding or_default_type
get_default_gpu_node_selector type =
    let t = or_default_type type in
    if t == default_gpu_resource_type
    then ("nvidia.com/gpu.present", "true") ∷ []
    else if t == "amd.com/gpu"
    then ("amd.com/gpu.present", "true") ∷ []
    else []

-- for k, v := range src { if _, exists := dst[k]; !exists { dst[k] = v } }
pub insert_missing : Map String → Map String → Map String
insert_missing [] dst = dst
insert_missing ((k, v) ∷ src) dst =
    insert_missing src (if is_some (lookup k dst) then dst else insert k v dst)

pub build_gpu_node_selector : GpuConfig → LlmEngine → Map String
build_gpu_node_selector gpu engine =
    insert_missing (get_default_gpu_node_selector gpu.type)
      (insert_all gpu.node_selector (insert_all engine.spec.node_selector []))

exists_no_schedule : String → List Toleration
exists_no_schedule key = record { key = key; operator = "Exists"; effect = "NoSchedule" } ∷ []

pub get_default_gpu_tolerations : String → List Toleration
unfolding or_default_type exists_no_schedule
get_default_gpu_tolerations type =
    let t = or_default_type type in
    if t == default_gpu_resource_type
    then exists_no_schedule default_gpu_resource_type
    else if t == "amd.com/gpu"
    then exists_no_schedule "amd.com/gpu"
    else []

pub build_gpu_tolerations : GpuConfig → List Toleration
build_gpu_tolerations gpu =
    if is_empty gpu.tolerations then get_default_gpu_tolerations gpu.type else gpu.tolerations
