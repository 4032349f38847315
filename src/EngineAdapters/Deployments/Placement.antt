-- ===== src/EngineAdapters/Deployments/Placement.antt =====
-- On which node an engine's pods run, and whose environment variables they get.
use aitrigram.Base.{
  String, ◌≡◌, refl, ◌∙◌, [], ◌∷◌, true, false, Option, none, some, arith, ◌==◌, inl, inr,
  Bool-cases, is_blank, Map, lookup,
}
use aitrigram.Api.Repository.{ModelRepository}
use aitrigram.Api.Engine.{engine_ollama, EnvVar, GpuConfig, LlmEngine}
use aitrigram.Cluster.Workloads.{Deployment}
use aitrigram.Storage.Node.{get_bound_node_name, requires_node_affinity}
use aitrigram.EngineAdapters.{detect_gpu_request, is_enabled, build_gpu_node_selector}
use aitrigram.EngineAdapters.Precedence.{find_env, find_env-merge_env_vars, lookup-insert_missing}
use aitrigram.EngineAdapters.Environment.{build_ollama_env, build_vllm_env}
use aitrigram.EngineAdapters.Deployments.{
  EngineContext, storage_selector, with_gpu_selector, or_template, engine_env, adapt_container,
  adapt_pod, adapted, adapt_deployment,
}
use aitrigram.EngineAdapters.Deployments.Shape.{adapt_deployment-eq-some}

lookup-or_template :
    (k v : String) (selector template : Map String)
    → lookup k selector ≡ some v
    → lookup k (or_template selector template) ≡ some v
unfolding or_template lookup
lookup-or_template k v [] template h = cc
lookup-or_template k v ((j, w) ∷ m) template h = h

lookup-with_gpu_selector :
    (k v : String) (gpu : Option GpuConfig) (engine : LlmEngine) (selector : Map String)
    → lookup k selector ≡ some v
    → lookup k (with_gpu_selector gpu engine selector) ≡ some v
unfolding with_gpu_selector build_gpu_node_selector lookup
lookup-with_gpu_selector k v none engine selector h = h
lookup-with_gpu_selector k v (some gpu) engine selector h = elim (Bool-cases gpu.enabled) [
  | inl on ↦
      rw on (lookup-insert_missing k (build_gpu_node_selector gpu engine) selector ∙ rw h refl)
  | inr off ↦ rw off h
]

lookup-storage_selector :
    (repo : ModelRepository)
    → requires_node_affinity repo ≡ true
    → is_blank (get_bound_node_name repo) ≡ false
    → lookup "kubernetes.io/hostname" (storage_selector repo) ≡ some (get_bound_node_name repo)
unfolding storage_selector lookup
lookup-storage_selector repo exclusive known = rw (exclusive, known) refl

-- Where the storage can be written from one node only and that node is recorded, the pods of the
-- engine are bound to it, whatever the labels that the engine, the GPU configuration and the template
-- select.
pub adapt_deployment-node :
    (ctx : EngineContext) (d d' : Deployment)
    → adapt_deployment ctx d ≡ some d'
    → requires_node_affinity ctx.repository ≡ true
    → is_blank (get_bound_node_name ctx.repository) ≡ false
    → lookup "kubernetes.io/hostname" d'.pod.node_selector
      ≡ some (get_bound_node_name ctx.repository)
unfolding adapted adapt_pod
adapt_deployment-node ctx d d' h exclusive known =
    let (name, e, same) = adapt_deployment-eq-some ctx d d' h in
    rw (← same) (
      lookup-or_template _ _ _ _ (
        lookup-with_gpu_selector _ _ ctx.engine.spec.gpu ctx.engine
          (storage_selector ctx.repository)
          (lookup-storage_selector ctx.repository exclusive known)))

with_gpu_selector-off :
    (engine : LlmEngine) (selector : Map String)
    → detect_gpu_request engine ≡ false
    → with_gpu_selector engine.spec.gpu engine selector ≡ selector
unfolding with_gpu_selector detect_gpu_request is_enabled
with_gpu_selector-off engine selector off = ground arith

-- Where no GPU is requested and the storage asks for no node, the pods keep the node selector of the
-- template: the engine's own node selector has no effect.
pub adapt_deployment-selector_ignored :
    (ctx : EngineContext) (d d' : Deployment)
    → adapt_deployment ctx d ≡ some d'
    → detect_gpu_request ctx.engine ≡ false
    → requires_node_affinity ctx.repository ≡ false
    → d'.pod.node_selector ≡ d.pod.node_selector
unfolding adapted adapt_pod storage_selector or_template
adapt_deployment-selector_ignored ctx d d' h off shared =
    let (name, e, same) = adapt_deployment-eq-some ctx d d' h in
    rw (← same, with_gpu_selector-off ctx.engine (storage_selector ctx.repository) off, shared) refl

find_env-engine_env :
    (name : String) (v : EnvVar) (engine : LlmEngine) (repo : ModelRepository)
    → find_env name engine.spec.env ≡ some v
    → find_env name (engine_env engine repo) ≡ some v
unfolding engine_env build_ollama_env build_vllm_env
find_env-engine_env name v engine repo h =
    elim (Bool-cases (engine.spec.engine_type == engine_ollama)) [
      | inl ollama ↦ rw ollama (find_env-merge_env_vars name _ engine.spec.env ∙ rw h refl)
      | inr vllm ↦ rw vllm (find_env-merge_env_vars name _ engine.spec.env ∙ rw h refl)
    ]

-- A variable that the engine's spec defines reaches the container as it is, over the defaults of the
-- engine's type and over the template.
pub adapt_deployment-env :
    (ctx : EngineContext) (d d' : Deployment) (name : String) (v : EnvVar)
    → adapt_deployment ctx d ≡ some d'
    → find_env name ctx.engine.spec.env ≡ some v
    → find_env name d'.pod.container.env ≡ some v
unfolding adapted adapt_pod adapt_container
adapt_deployment-env ctx d d' name v h defined =
    let (n, e, same) = adapt_deployment-eq-some ctx d d' h in
    let engine = find_env-engine_env name v ctx.engine ctx.repository defined in
    rw (← same) (
      find_env-merge_env_vars name d.pod.container.env (engine_env ctx.engine ctx.repository)
      ∙ rw engine refl)
