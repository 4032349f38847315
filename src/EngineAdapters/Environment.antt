-- ===== src/EngineAdapters/Environment.antt =====
-- The storage paths of an engine, and the environment of its container
-- (internal/controller/adapters/llmengine_utils.go).
use aitrigram.Base.{
  String, List, [], ◌∷◌, ◌++◌, map, Bool, not, ◌&&◌, if◌then◌else◌, ◌==◌, is_blank, before, Map,
}
use aitrigram.Api.Repository.{ModelRepository, hugging_face}
use aitrigram.Api.Engine.{engine_ollama, engine_vllm, EnvVar, value, secret_key, LlmEngine}
use aitrigram.Provider.{get_or_default_mount_path}
use aitrigram.EngineAdapters.{merge_env_vars}

-- The model's path, and the variables that point to it. The callers never pass a nil repository.
env_paths : LlmEngine → ModelRepository → String → Map String
env_paths engine repo path =
    if engine.spec.engine_type == engine_vllm
    then (if repo.spec.source.origin == hugging_face then ("HF_HOME", path) ∷ [] else [])
    else if engine.spec.engine_type == engine_ollama
    then ("OLLAMA_MODELS", path) ∷ []
    else []

unfoldable pub get_storage_paths : LlmEngine → ModelRepository → String × Map String
unfolding env_paths get_or_default_mount_path
get_storage_paths engine repo =
    let path = get_or_default_mount_path repo.spec.storage.mount_path in
    (path, env_paths engine repo path)

insert_by_key : String × String → Map String → Map String
insert_by_key entry [] = entry ∷ []
insert_by_key (k, v) ((j, w) ∷ m) =
    let rest = insert_by_key (k, v) m in if before k j then (k, v) ∷ (j, w) ∷ m else (j, w) ∷ rest

sort_by_key : Map String → Map String
sort_by_key [] = []
sort_by_key (entry ∷ m) = insert_by_key entry (sort_by_key m)

abbrev plain : String × String → EnvVar
plain (k, v) = record { name = k; source = value v }

-- The variables of a map, in the order of their names.
unfoldable pub sorted_env_from_map : Map String → List EnvVar
unfolding sort_by_key insert_by_key
sorted_env_from_map paths = map plain (sort_by_key paths)

ollama_specific : Bool → Map String
ollama_specific request_gpu =
    if request_gpu
    then ("OLLAMA_NUM_PARALLEL", "4")
      ∷ ("OLLAMA_FLASH_ATTENTION", "1")
      ∷ ("CUDA_VISIBLE_DEVICES", "0")
      ∷ ("OLLAMA_GPU_OVERHEAD", "0.05")
      ∷ []
    else ("OLLAMA_NUM_PARALLEL", "2") ∷ ("OLLAMA_NUM_GPU", "0") ∷ ("OMP_NUM_THREADS", "8") ∷ []

unfoldable pub build_ollama_env : LlmEngine → ModelRepository → Bool → List EnvVar
unfolding ollama_specific
build_ollama_env engine repo request_gpu =
    let (path, paths) = get_storage_paths engine repo in
    merge_env_vars
      (map plain (
          ("OLLAMA_HOST", "0.0.0.0")
          ∷ ("OLLAMA_ORIGINS", "*")
          ∷ ("OLLAMA_MAX_LOADED_MODELS", "1")
          ∷ [])
        ++ sorted_env_from_map paths
        ++ map plain (ollama_specific request_gpu))
      engine.spec.env

hub_token : ModelRepository → List EnvVar
hub_token repo =
    let source = repo.spec.source in
    let key =
      if is_blank source.hf_token_secret_key then "HFToken" else source.hf_token_secret_key in
    if not (is_blank source.hf_token_secret) && source.origin == hugging_face
    then record { name = "HUGGING_FACE_HUB_TOKEN"; source = secret_key source.hf_token_secret key }
      ∷ []
    else []

vllm_specific : Bool → Map String
vllm_specific request_gpu =
    if request_gpu then [] else ("OMP_NUM_THREADS", "8") ∷ ("MKL_NUM_THREADS", "8") ∷ []

unfoldable pub build_vllm_env : LlmEngine → ModelRepository → Bool → List EnvVar
unfolding hub_token vllm_specific
build_vllm_env engine repo request_gpu =
    let (path, paths) = get_storage_paths engine repo in
    merge_env_vars
      (map plain
          (("VLLM_LOGGING_LEVEL", "WARNING") ∷ ("VLLM_WORKER_MULTIPROC_METHOD", "spawn") ∷ [])
        ++ hub_token repo
        ++ sorted_env_from_map paths
        ++ map plain (vllm_specific request_gpu))
      engine.spec.env
