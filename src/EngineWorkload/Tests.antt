-- ===== src/EngineWorkload/Tests.antt =====
-- The theorems about the workload of an engine at concrete inputs.
use aitrigram.Base.{◌≡◌, refl, [], some, none, bytes}
use aitrigram.Base.Results.{ok}
use aitrigram.Api.Sample.{chat_engine, stored_repository}
use aitrigram.Names.Truncated.{truncated_name, component_name}
use aitrigram.Cluster.{pure, ask, ◌>>=◌}
use aitrigram.Cluster.Sample.{bare}
use aitrigram.Cluster.Workloads.{Deployment, Manifest, of_deployment}
use aitrigram.Library.Sample.{sample}
use aitrigram.EngineAdapters.Deployments.{EngineContext, adapt_deployment}
use aitrigram.EngineAdapters.Services.{adapt_service, adapt_vllm_config_map, is_vllm_engine}
use aitrigram.EngineWorkload.{
  Component, model_component, new_model_component, with_manifest_adapter, with_service_adapter,
  with_deployment_adapter, new_llm_engine_component, new_manifest_adapter_with_predicate,
}
use aitrigram.EngineWorkload.Reconcile.{
  reconcile, update_resources, reconcile_manifests, reconcile_deployment, reconcile_service,
  build_manifest, build_deployment, build_service, server_side_apply, finished, asked, in_namespace,
}
use aitrigram.EngineWorkload.Reconcile.Plan.{Performed, plan, reconcile-prefix}
use aitrigram.EngineWorkload.Reconcile.Builds.{OfDeployment, OfService, build_deployment-eq-ok}
use aitrigram.EngineWorkload.Reconcile.Model.{Applied, reconcile-applies}

abbrev context : EngineContext
context = record {
  engine = chat_engine;
  repository = stored_repository;
  namespace = "apps";
  model_pvc_name = bytes "le-chat-llama";
}

abbrev workload : Component
workload = model_component sample chat_engine (bytes "chat-llama")

is_workload : new_model_component sample chat_engine stored_repository ≡ some workload
unfolding new_model_component component_name truncated_name
is_workload = refl

always : workload.predicate ≡ none
unfolding model_component
always = refl

reconcile-prefix_example :
    Performed bare
      (plan sample context workload)
      []
      (reconcile sample context workload bare []).0
      (reconcile sample context workload bare []).1
reconcile-prefix_example = reconcile-prefix sample context workload bare [] always

succeeds : (reconcile sample context workload bare []).0 ≡ ok tt
unfolding reconcile update_resources reconcile_manifests model_component new_model_component
    reconcile_deployment reconcile_service build_manifest build_deployment build_service
    server_side_apply finished asked in_namespace with_manifest_adapter with_service_adapter
    with_deployment_adapter new_llm_engine_component new_manifest_adapter_with_predicate
    adapt_deployment adapt_service adapt_vllm_config_map is_vllm_engine component_name
    truncated_name ◌>>=◌ pure ask
succeeds = refl

reconcile-applies_example :
    (d : Manifest) × (s : Manifest) × (build_deployment sample context workload ≡ ok d)
    × (build_service sample context workload ≡ ok s)
    × OfDeployment sample context d
    × OfService sample context s
    × Applied sample context [] (reconcile sample context workload bare []).1 d s
reconcile-applies_example = reconcile-applies sample context workload bare [] is_workload succeeds

applied_run :
    (d : Manifest) × (s : Manifest) × (build_deployment sample context workload ≡ ok d)
    × (build_service sample context workload ≡ ok s)
    × OfDeployment sample context d
    × OfService sample context s
    × Applied sample context [] (reconcile sample context workload bare []).1 d s
applied_run = reconcile-applies sample context workload bare [] is_workload succeeds

build_deployment-eq-ok_example :
    (t : Deployment) × (d : Deployment) × (sample.deployment_manifest "vllm" ≡ ok t)
    × (adapt_deployment context (record t { namespace = "apps" }) ≡ some d)
    × (sample.own chat_engine (of_deployment d) ≡ ok applied_run.0)
build_deployment-eq-ok_example =
    build_deployment-eq-ok sample context workload applied_run.0 is_workload applied_run.2
