-- ===== src/EngineAdapters/Tests.antt =====
-- The theorems about precedence at concrete inputs.
use aitrigram.Base.{
  bytes, Option, String, ◌≡◌, refl, [], ◌∷◌, true, false, none, some, lookup, insert, insert_all,
  or_else,
}
use aitrigram.Api.Engine.{EnvVar, value, GpuConfig, LlmEngine, ResourceRequirements}
use aitrigram.EngineAdapters.{
  merge_env_vars, not_overridden, is_defined, insert_missing, get_pod_port, get_service_port,
  detect_gpu_request, merge_resource_requirements, get_default_gpu_node_selector,
  build_gpu_node_selector, build_gpu_tolerations, get_default_gpu_tolerations,
}
use aitrigram.EngineAdapters.Precedence.{
  find_env, find_env-merge_env_vars, lookup-build_gpu_node_selector,
  lookup-merge_resource_requirements,
}
use aitrigram.Api.Sample.{chat_engine, stored_repository}
use aitrigram.Cluster.Workloads.{claim, Deployment, Service}
use aitrigram.Library.Sample.{blank_deployment, blank_service}
use aitrigram.Names.Truncated.{truncated_name, component_name}
use aitrigram.Storage.Node.{get_bound_node_name, requires_node_affinity}
use aitrigram.EngineAdapters.Environment.{get_storage_paths}
use aitrigram.EngineAdapters.Deployments.{EngineContext, adapted, adapt_deployment}
use aitrigram.EngineAdapters.Deployments.Mount.{find_volume, find_mount, adapt_deployment-mounts}
use aitrigram.EngineAdapters.Deployments.Placement.{
  adapt_deployment-node, adapt_deployment-selector_ignored, adapt_deployment-env,
}
use aitrigram.EngineAdapters.Services.{adapt_service}
use aitrigram.EngineAdapters.Services.Reach.{Selects, adapt_service-reaches}

abbrev home : String → EnvVar
home path = record { name = "HOME"; source = value path }

abbrev debug : EnvVar
debug = record { name = "DEBUG"; source = value "1" }

merge_test :
    merge_env_vars (home "/data" ∷ debug ∷ []) (home "/mine" ∷ []) ≡ home "/mine" ∷ debug ∷ []
unfolding merge_env_vars not_overridden is_defined
merge_test = refl

find_env-merge_env_vars_example :
    find_env "HOME" (merge_env_vars (home "/data" ∷ debug ∷ []) (home "/mine" ∷ []))
    ≡ or_else (find_env "HOME" (home "/mine" ∷ [])) (find_env "HOME" (home "/data" ∷ debug ∷ []))
find_env-merge_env_vars_example =
    find_env-merge_env_vars "HOME" (home "/data" ∷ debug ∷ []) (home "/mine" ∷ [])

abbrev gpu : GpuConfig
gpu = record {
  enabled = true;
  count = 1;
  type = "";
  node_selector = ("zone", "a") ∷ [];
  tolerations = [];
}

abbrev engine : LlmEngine
engine = record {
  metadata = record { name = "chat"; namespace = "apps"; deleting = false; finalizers = [] };
  spec = record {
    engine_type = "vllm";
    model_refs = [];
    image = "";
    args = [];
    env = [];
    port = 0;
    service_port = 0;
    replicas = none;
    node_selector = ("zone", "b") ∷ [];
    resources = none;
    gpu = some gpu;
    host_ipc = false;
  };
  status = record { phase = ""; conditions = []; model_repositories = [] };
}

selector_test :
    (build_gpu_node_selector gpu engine ≡ ("zone", "a") ∷ ("nvidia.com/gpu.present", "true") ∷ [])
    × (build_gpu_tolerations gpu
        ≡ record { key = "nvidia.com/gpu"; operator = "Exists"; effect = "NoSchedule" } ∷ [])
unfolding build_gpu_node_selector insert_missing get_default_gpu_node_selector lookup insert_all
    insert build_gpu_tolerations get_default_gpu_tolerations
selector_test = (refl, refl)

engine_test :
    (get_pod_port engine ≡ 8000)
    × (get_service_port engine ≡ 8080)
    × (detect_gpu_request engine ≡ true)
unfolding get_pod_port get_service_port detect_gpu_request
engine_test = (refl, refl, refl)

lookup-build_gpu_node_selector_example :
    lookup "zone" (build_gpu_node_selector gpu engine)
    ≡ or_else
        (or_else (lookup "zone" (("zone", "a") ∷ [])) (lookup "zone" (("zone", "b") ∷ [])))
        (lookup "zone" (get_default_gpu_node_selector ""))
unfolding lookup
lookup-build_gpu_node_selector_example =
    lookup-build_gpu_node_selector "zone" gpu engine (refl, tt) (refl, tt)

abbrev requirements : String → ResourceRequirements
requirements amount = record { limits = ("cpu", amount) ∷ []; requests = ("cpu", amount) ∷ [] }

lookup-merge_resource_requirements_example :
    (lookup "cpu" (merge_resource_requirements (requirements "1") (requirements "2")).limits
      ≡ or_else (lookup "cpu" (("cpu", "2") ∷ [])) (lookup "cpu" (("cpu", "1") ∷ [])))
    × (lookup "cpu" (merge_resource_requirements (requirements "1") (requirements "2")).requests
        ≡ or_else (lookup "cpu" (("cpu", "2") ∷ [])) (lookup "cpu" (("cpu", "1") ∷ [])))
unfolding lookup
lookup-merge_resource_requirements_example =
    lookup-merge_resource_requirements "cpu" (requirements "1") (requirements "2") (refl, tt)
      (refl, tt) (refl, tt) (refl, tt)

abbrev sample_context : EngineContext
sample_context = record {
  engine = chat_engine;
  repository = stored_repository;
  namespace = "apps";
  model_pvc_name = bytes "le-chat-llama";
}

abbrev adapted_example : Deployment
adapted_example = adapted sample_context blank_deployment (bytes "chat-llama")

is_adapted : adapt_deployment sample_context blank_deployment ≡ some adapted_example
unfolding adapt_deployment component_name truncated_name
is_adapted = refl

adapt_deployment-mounts_example :
    (find_volume "model-storage" adapted_example.pod.volumes
      ≡ some (claim (bytes "le-chat-llama") true))
    × (find_mount "model-storage" adapted_example.pod.container.mounts
        ≡ some (record {
          name = "model-storage";
          mount_path = (get_storage_paths chat_engine stored_repository).0;
          read_only = true;
        }))
unfolding find_volume find_mount
adapt_deployment-mounts_example =
    adapt_deployment-mounts sample_context blank_deployment adapted_example is_adapted refl refl

adapt_deployment-node_example :
    lookup "kubernetes.io/hostname" adapted_example.pod.node_selector ≡ some "node-a"
unfolding requires_node_affinity get_bound_node_name
adapt_deployment-node_example =
    adapt_deployment-node sample_context blank_deployment adapted_example is_adapted refl refl

-- The same model on a storage that every node can write.
abbrev shared_context : EngineContext
shared_context = record sample_context {
  engine = record chat_engine { spec = record chat_engine.spec { env = debug ∷ [] } };
  repository = record stored_repository {
    status = record stored_repository.status { storage = none };
  };
}

abbrev shared_example : Deployment
shared_example = adapted shared_context blank_deployment (bytes "chat-llama")

is_adapted_shared : adapt_deployment shared_context blank_deployment ≡ some shared_example
unfolding adapt_deployment component_name truncated_name
is_adapted_shared = refl

adapt_deployment-selector_ignored_example : shared_example.pod.node_selector ≡ []
unfolding detect_gpu_request requires_node_affinity
adapt_deployment-selector_ignored_example =
    adapt_deployment-selector_ignored shared_context blank_deployment shared_example
      is_adapted_shared refl refl

adapt_deployment-env_example : find_env "DEBUG" shared_example.pod.container.env ≡ some debug
unfolding find_env
adapt_deployment-env_example =
    adapt_deployment-env shared_context blank_deployment shared_example "DEBUG" debug
      is_adapted_shared refl

abbrev or_blank : Option Service → Service
or_blank none = blank_service
or_blank (some s) = s

abbrev service_example : Service
service_example = or_blank (adapt_service sample_context blank_service)

is_adapted_service : adapt_service sample_context blank_service ≡ some service_example
unfolding adapt_service component_name truncated_name
is_adapted_service = refl

adapt_service-reaches_example :
    (service_example.name ≡ adapted_example.name)
    × (service_example.selector ≡ adapted_example.selector)
    × Selects service_example.selector adapted_example.template_labels
    × (service_example.target_port ≡ adapted_example.pod.container.port)
adapt_service-reaches_example =
    adapt_service-reaches sample_context blank_deployment adapted_example blank_service
      service_example is_adapted is_adapted_service
