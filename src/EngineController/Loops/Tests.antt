-- ===== src/EngineController/Loops/Tests.antt =====
-- The deployment of a model at a concrete input.
use aitrigram.Base.{◌≡◌, refl, [], ◌∷◌, true, Option, none, some, Bytes, bytes, lookup}
use aitrigram.Base.Results.{Result, ok, err}
use aitrigram.Api.Sample.{chat_engine, stored_repository}
use aitrigram.Names.Truncated.{truncated_name, llm_engine_pv_name, component_name}
use aitrigram.Provider.{get_or_default_mount_path}
use aitrigram.Storage.Discovery.{read_only_many}
use aitrigram.Storage.ReadOnly.{read_only_source, build_read_only_pv_spec}
use aitrigram.Storage.Backend.{nfs}
use aitrigram.Cluster.{Env, pure, ask, ◌>>=◌}
use aitrigram.Cluster.Objects.{PersistentVolumeClaim, claim_bound}
use aitrigram.Cluster.Workloads.{claim, Deployment, Manifest, of_deployment, EngineVolume}
use aitrigram.Cluster.Sample.{bare}
use aitrigram.Library.Sample.{sample, blank_deployment}
use aitrigram.EngineAdapters.Deployments.{adapt_deployment}
use aitrigram.EngineAdapters.Deployments.Mount.{find_volume, find_mount}
use aitrigram.EngineStorage.{
  EngineStorageResult, volume_of, engine_claim_of, ensure_llm_engine_storage,
}
use aitrigram.EngineStorage.Ends.{IsBoundClaim}
use aitrigram.EngineWorkload.{
  WorkloadError, Component, new_llm_engine_component, new_model_component, with_deployment_adapter,
  with_service_adapter, with_manifest_adapter,
}
use aitrigram.EngineWorkload.Reconcile.{build_deployment, finished}
use aitrigram.EngineController.Loops.{context_of}
use aitrigram.EngineController.Loops.Serves.{build_deployment-serves}

abbrev mirror : Bytes
mirror = bytes "le-chat-llama"

abbrev mirror_volume : EngineVolume
mirror_volume = volume_of sample chat_engine "llama" mirror (record {
  capacity = "5Gi";
  access_modes = read_only_many ∷ [];
  source = nfs "10.0.0.1" "/exports" true;
  node_affinity = none;
})

abbrev mirror_claim : PersistentVolumeClaim
mirror_claim = record (engine_claim_of sample chat_engine "llama" mirror "5Gi") {
  phase = claim_bound;
}

abbrev mirrored : Env
mirrored = record bare { engine_volume = λ h. ok mirror_volume; claim = λ h. ok mirror_claim }

abbrev prepared : EngineStorageResult
prepared = record { pvc_name = mirror; mount_path = "/models" }

is_prepared :
    (ensure_llm_engine_storage sample chat_engine stored_repository mirrored []).0 ≡ ok prepared
unfolding ensure_llm_engine_storage ◌>>=◌ pure ask llm_engine_pv_name build_read_only_pv_spec
    engine_claim_of truncated_name read_only_source lookup get_or_default_mount_path
is_prepared = refl

abbrev component_or_blank : Option Component → Component
component_or_blank none = new_llm_engine_component []
component_or_blank (some w) = w

abbrev workload : Component
workload = component_or_blank (new_model_component sample chat_engine stored_repository)

is_workload : new_model_component sample chat_engine stored_repository ≡ some workload
unfolding new_model_component component_name truncated_name
is_workload = refl

abbrev manifest_or_blank : Result WorkloadError Manifest → Manifest
manifest_or_blank (ok m) = m
manifest_or_blank (err e) = of_deployment blank_deployment

abbrev built : Manifest
built =
    manifest_or_blank
      (build_deployment sample (context_of sample chat_engine stored_repository prepared) workload)

is_built :
    build_deployment sample (context_of sample chat_engine stored_repository prepared) workload
    ≡ ok built
unfolding build_deployment finished new_model_component with_deployment_adapter with_service_adapter
    with_manifest_adapter new_llm_engine_component component_name truncated_name adapt_deployment
    context_of
is_built = refl

no_volume : find_volume "model-storage" blank_deployment.pod.volumes ≡ none
unfolding find_volume
no_volume = refl

no_mount : find_mount "model-storage" blank_deployment.pod.container.mounts ≡ none
unfolding find_mount
no_mount = refl

build_deployment-serves_example :
    (d : Deployment) × (name : Bytes) × (sample.own chat_engine (of_deployment d) ≡ ok built)
    × (find_volume "model-storage" d.pod.volumes ≡ some (claim name true))
    × (llm_engine_pv_name "chat" "llama" ≡ some name)
    × IsBoundClaim sample chat_engine stored_repository mirrored prepared name
build_deployment-serves_example =
    build_deployment-serves sample chat_engine stored_repository mirrored [] prepared workload
      blank_deployment built is_prepared is_workload refl no_volume no_mount is_built
