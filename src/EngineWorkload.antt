-- ===== src/EngineWorkload.antt =====
-- The workload of an engine and a model: the component's record, its builder and the manifests it
-- wants (internal/controller/component/component.go, builder.go and workload.go, and
-- `NewModelComponent` of internal/controller/adapters/llmengine_component.go).
pub mod Reconcile
mod Tests
use aitrigram.Base.{
  String, List, [], ◌∷◌, ◌++◌, map, Bool, true, false, Option, none, some, if◌then◌else◌, ◌==◌,
  Bytes,
}
use aitrigram.Base.Results.{Result, ok, err, ◌>>=◌}
use aitrigram.Api.Repository.{ModelRepository}
use aitrigram.Api.Engine.{engine_vllm, LlmEngine}
use aitrigram.Cluster.{ApiError, Reply}
use aitrigram.Cluster.Workloads.{
  Deployment, Service, ConfigMap, Manifest, of_config_map, of_deployment, of_service,
}
use aitrigram.Names.Truncated.{component_name}
use aitrigram.Library.{Library}
use aitrigram.EngineAdapters.Deployments.{EngineContext, adapt_deployment}
use aitrigram.EngineAdapters.Services.{adapt_service, adapt_vllm_config_map, is_vllm_engine}

-- `panics` is a panic of the component's name; the others are the errors that are returned.
pub data WorkloadError : Type 0 where
  panics predicate_failed missing_create adapt_failed : WorkloadError
  load_failed own_failed convert_failed apply_failed delete_failed : ApiError → WorkloadError

abbrev pub Built {ℓ} : Type ℓ → Type ℓ
Built A = Result WorkloadError A

abbrev pub Predicate : Type 0
Predicate = EngineContext → Built Bool

abbrev pub Adapter : Type 0 → Type 0
Adapter A = EngineContext → A → Built A

-- ManifestAdapter; `none` is a nil function.
pub record ManifestAdapter : Type 0 where
  pub create : Option Manifest
  pub adapt : Option (Adapter Manifest)
  pub predicate : Option Predicate

-- llmEngineWorkload, and ComponentBuilder, which has the same fields. The order of the manifests is
-- the one in which Go's loop over the map happens to meet them.
pub record Component : Type 0 where
  pub name : Bytes
  pub adapt_deployment : Option (Adapter Deployment)
  pub adapt_service : Option (Adapter Service)
  pub manifest_adapters : List (String × ManifestAdapter)
  pub predicate : Option Predicate

unfoldable pub new_llm_engine_component : Bytes → Component
new_llm_engine_component name = record {
  name = name;
  adapt_deployment = none;
  adapt_service = none;
  manifest_adapters = [];
  predicate = none;
}

unfoldable pub with_deployment_adapter : Adapter Deployment → Component → Component
with_deployment_adapter f b = record b { adapt_deployment = some f }

unfoldable pub with_service_adapter : Adapter Service → Component → Component
with_service_adapter f b = record b { adapt_service = some f }

put_manifest :
    String → ManifestAdapter → List (String × ManifestAdapter) → List (String × ManifestAdapter)
put_manifest name a [] = (name, a) ∷ []
put_manifest name a ((n, b) ∷ rest) =
    if n == name then (name, a) ∷ rest else (n, b) ∷ put_manifest name a rest

unfoldable pub with_manifest_adapter : String → ManifestAdapter → Component → Component
unfolding put_manifest
with_manifest_adapter name a b = record b {
  manifest_adapters = put_manifest name a b.manifest_adapters;
}

unfoldable pub with_predicate : Predicate → Component → Component
with_predicate f b = record b { predicate = some f }

unfoldable pub new_manifest_adapter : Manifest → Adapter Manifest → ManifestAdapter
new_manifest_adapter created adapt = record {
  create = some created;
  adapt = some adapt;
  predicate = none;
}

unfoldable pub new_manifest_adapter_with_predicate :
    Manifest → Adapter Manifest → Predicate → ManifestAdapter
new_manifest_adapter_with_predicate created adapt predicate = record {
  create = some created;
  adapt = some adapt;
  predicate = some predicate;
}

built_or {ℓ} : {A : Type ℓ} → WorkloadError → Option A → Built A
built_or e none = err e
built_or e (some a) = ok a

deployment_adapter : Adapter Deployment
unfolding built_or
deployment_adapter ctx d = built_or panics (adapt_deployment ctx d)

service_adapter : Adapter Service
unfolding built_or
service_adapter ctx s = built_or panics (adapt_service ctx s)

of_map : Option ConfigMap → Built Manifest
of_map none = err adapt_failed
of_map (some c) = ok (of_config_map c)

config_map_adapter : Library → Adapter Manifest
unfolding of_map
config_map_adapter lib ctx (of_config_map c) =
    of_map (adapt_vllm_config_map lib.syntax lib.marshal ctx c)
config_map_adapter lib ctx (of_deployment d) = err adapt_failed
config_map_adapter lib ctx (of_service s) = err adapt_failed

abbrev pub empty_config_map : ConfigMap
empty_config_map = record { name = ""; namespace = ""; owner = ""; labels = []; entries = [] }

pub vllm_config_adapter : Library → ManifestAdapter
unfolding config_map_adapter new_manifest_adapter_with_predicate
vllm_config_adapter lib =
    new_manifest_adapter_with_predicate (of_config_map empty_config_map) (config_map_adapter lib)
      (λ ctx. ok (is_vllm_engine ctx))

-- The component before the additions for the type of the engine.
base_component : Bytes → Component
unfolding deployment_adapter service_adapter new_llm_engine_component with_deployment_adapter
    with_service_adapter
base_component name =
    with_service_adapter service_adapter
      (with_deployment_adapter deployment_adapter (new_llm_engine_component name))

pub model_component : Library → LlmEngine → Bytes → Component
unfolding base_component vllm_config_adapter with_manifest_adapter
model_component lib engine name =
    if engine.spec.engine_type == engine_vllm
    then with_manifest_adapter "vllm-config" (vllm_config_adapter lib) (base_component name)
    else base_component name

named_component : Library → LlmEngine → Option Bytes → Option Component
named_component lib engine none = none
named_component lib engine (some name) = some (model_component lib engine name)

-- `none` where the component's name panics.
unfoldable pub new_model_component : Library → LlmEngine → ModelRepository → Option Component
unfolding named_component model_component
new_model_component lib engine repo =
    named_component lib engine (component_name engine.name repo.name)
