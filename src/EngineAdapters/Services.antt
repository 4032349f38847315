-- ===== src/EngineAdapters/Services.antt =====
-- `AdaptService`, `AdaptVLLMConfigMap` and `IsVLLMEngine`
-- (internal/controller/adapters/llmengine_service_adapter.go and llmengine_configmap_adapter.go).
pub mod Reach
use aitrigram.Base.{
  ℕ, String, List, [], ◌∷◌, Bool, true, false, Option, none, some, if◌then◌else◌, ◌==◌, nat_eq,
  Bytes, Map, insert,
}
use aitrigram.Base.Results.{Result, ok, err}
use aitrigram.Api.Engine.{engine_vllm, ModelReference, GpuConfig, LlmEngine}
use aitrigram.Cluster.Workloads.{Service, ConfigMap}
use aitrigram.Names.Truncated.{component_name}
use aitrigram.EngineAdapters.{get_pod_port, get_service_port}
use aitrigram.EngineAdapters.Deployments.{EngineContext, selector_of, get_vllm_config_map_name}
use aitrigram.VllmConfig.Values.{Fields}
use aitrigram.VllmConfig.Arguments.{Syntax}
use aitrigram.VllmConfig.Build.{build_vllm_config}

adapted_service : EngineContext → Service → Option Bytes → Option Service
adapted_service ctx s none = none
adapted_service ctx s (some name) = some (record s {
  name = name;
  labels = selector_of ctx.engine ctx.repository;
  selector = selector_of ctx.engine ctx.repository;
  port = get_service_port ctx.engine;
  target_port = get_pod_port ctx.engine;
})

unfoldable pub adapt_service : EngineContext → Service → Option Service
unfolding adapted_service
adapt_service ctx s = adapted_service ctx s (component_name ctx.engine.name ctx.repository.name)

-- The revision of the first reference to the repository.
revision_of : String → List ModelReference → String
revision_of repo [] = ""
revision_of repo (ref ∷ refs) = if ref.name == repo then ref.revision else revision_of repo refs

requested_gpus : Option GpuConfig → Bool × ℕ
requested_gpus none = (false, 0)
requested_gpus (some gpu) =
    if gpu.enabled then (true, if nat_eq gpu.count 0 then 1 else gpu.count) else (false, 0)

unfoldable pub vllm_config_of : Syntax → EngineContext → Fields
unfolding revision_of requested_gpus
vllm_config_of syntax ctx =
    let (request_gpu, gpu_count) = requested_gpus ctx.engine.spec.gpu in
    build_vllm_config syntax ctx.repository.spec.source.model_id
      (revision_of ctx.repository.name ctx.engine.spec.model_refs) request_gpu gpu_count
      ctx.engine.spec.args

filled : EngineContext → ConfigMap → Bytes → ConfigMap
filled ctx c yaml = record c {
  name = get_vllm_config_map_name ctx.engine.name ctx.repository.name;
  namespace = ctx.engine.namespace;
  labels =
      insert "engine-type" ctx.engine.spec.engine_type
        (insert "model" ctx.repository.name (insert "app" ctx.engine.name c.labels));
  entries = insert "vllm-config.yaml" yaml c.entries;
}

written_as : EngineContext → ConfigMap → Option Bytes → Option ConfigMap
written_as ctx c none = none
written_as ctx c (some yaml) = some (filled ctx c yaml)

-- `marshal` is yaml.Marshal, and `none` its error.
unfoldable pub adapt_vllm_config_map :
    Syntax → (marshal : Fields → Option Bytes) → EngineContext → ConfigMap → Option ConfigMap
unfolding written_as filled
adapt_vllm_config_map syntax marshal ctx c = written_as ctx c (marshal (vllm_config_of syntax ctx))

unfoldable pub is_vllm_engine : EngineContext → Bool
is_vllm_engine ctx = ctx.engine.spec.engine_type == engine_vllm
