-- ===== src/VllmConfig/Build.antt =====
-- `BuildVLLMConfig`: the defaults, the model's identity, and over them the user's arguments.
pub mod Overrides
mod Tests
use aitrigram.Base.{ℕ, String, List, Bool, true, false, ltb, if◌then◌else◌, is_blank, is_empty}
use aitrigram.VllmConfig.Values.{Value, bool, int, float, text, Fields, end, field, put}
use aitrigram.VllmConfig.Arguments.{Syntax, convert_args_to_vllm_config}

gpu_defaults : ℕ → Fields
gpu_defaults gpu_count =
    let common = put "gpu_memory_utilization" (float "0.9") (put "dtype" (text "auto") end) in
    if ltb 1 gpu_count then put "tensor_parallel_size" (int false gpu_count) common else common

cpu_defaults : Fields
cpu_defaults = put "enforce_eager" (bool true) (
    put "max_model_len" (int false 2048)
      (put "max_num_batched_tokens" (int false 2048) (put "dtype" (text "half") end)))

with_revision : String → Fields → Fields
with_revision revision config =
    if is_blank revision then config else put "revision" (text revision) config

-- Everything but the user's arguments.
unfoldable pub defaults : (model_id revision : String) → Bool → ℕ → Fields
unfolding gpu_defaults cpu_defaults with_revision
defaults model_id revision request_gpu gpu_count = put "trust_remote_code" (bool false) (
    with_revision revision
      (put "model" (text model_id) (if request_gpu then gpu_defaults gpu_count else cpu_defaults)))

-- for key, value := range src { config[key] = value }
unfoldable pub put_all : Fields → Fields → Fields
put_all end config = config
put_all (field k v src) config = put_all src (put k v config)

unfoldable pub build_vllm_config :
    Syntax → (model_id revision : String) → Bool → ℕ → (user_args : List String) → Fields
build_vllm_config syntax model_id revision request_gpu gpu_count user_args =
    let config = defaults model_id revision request_gpu gpu_count in
    if is_empty user_args
    then config
    else put_all (convert_args_to_vllm_config syntax user_args) config
