-- ===== src/Api/Sample.antt =====
-- An engine and a repository that is ready and stored on NFS, for the tests.
use aitrigram.Base.{[], ◌∷◌, true, false, none, some}
use aitrigram.Api.Repository.{ready, ModelRepository}
use aitrigram.Api.Engine.{LlmEngine, GpuConfig}

abbrev pub stored_repository : ModelRepository
stored_repository = record {
  metadata = record { name = "llama"; namespace = ""; deleting = false; finalizers = [] };
  spec = record {
    model_name = "llama";
    source = record {
      origin = "huggingface";
      model_id = "meta/llama";
      revision = "";
      revisions = [];
      hf_token_secret = "";
      hf_token_secret_key = "";
    };
    storage = record { size = "5Gi"; mount_path = "/models"; storage_class = "" };
    auto_download = true;
    download_image = "";
    download_scripts = "";
    delete_scripts = "";
    node_selector = [];
  };
  status = record {
    phase = ready;
    conditions = [];
    storage = some (record {
      storage_class = "local";
      access_mode = "ReadWriteOnce";
      volume_mode = "Filesystem";
      backend_ref = some (record {
        type = "nfs";
        details = ("server", "10.0.0.1") ∷ ("exportPath", "/exports") ∷ [];
      });
      bound_node_name = "node-a";
      capacity = "5Gi";
    });
    available_revisions = [];
    referenced_engines = "";
  };
}

abbrev pub one_gpu : GpuConfig
one_gpu = record {
  enabled = true;
  count = 1;
  type = "";
  node_selector = ("zone", "a") ∷ [];
  tolerations = [];
}

abbrev pub chat_engine : LlmEngine
chat_engine = record {
  metadata = record { name = "chat"; namespace = "apps"; deleting = false; finalizers = [] };
  spec = record {
    engine_type = "vllm";
    model_refs = record { name = "llama"; revision = ""; update_policy = "" } ∷ [];
    image = "";
    args = [];
    env = [];
    port = 0;
    service_port = 0;
    replicas = none;
    node_selector = ("zone", "b") ∷ [];
    resources = none;
    gpu = none;
    host_ipc = false;
  };
  status = record { phase = ""; conditions = []; model_repositories = [] };
}
