-- ===== src/VllmConfig/Build/Overrides.antt =====
-- A user's argument overrides every default.
use aitrigram.Base.{ℕ, String, ◌≡◌, refl, List, [], ◌∷◌, Bool, false, some, or_else, arith, eq_iff}
use aitrigram.VllmConfig.Values.{bool, Fields, end, field, find, put}
use aitrigram.VllmConfig.Values.Merge.{HasUniqueFields, find-put}
use aitrigram.VllmConfig.Arguments.{Syntax, convert_args_to_vllm_config}
use aitrigram.VllmConfig.Arguments.Unique.{convert_args_to_vllm_config-HasUniqueFields}
use aitrigram.VllmConfig.Build.{put_all, defaults, build_vllm_config}

find-put_all :
    (key : String) (src config : Fields)
    → HasUniqueFields src
    → find key (put_all src config) ≡ or_else (find key src) (find key config)
unfolding put_all find
find-put_all key end config u = refl
find-put_all key (field k v src) config (fresh, u) =
    ground (arith, eq_iff k key, find-put k key v config, find-put_all key src (put k v config) u)

-- The value of every key: the user's, if the arguments have one, else the default's.
pub find-build_vllm_config :
    (syntax : Syntax) (key model_id revision : String) (request_gpu : Bool) (gpu_count : ℕ)
    (user_args : List String)
    → find key (build_vllm_config syntax model_id revision request_gpu gpu_count user_args)
      ≡ or_else
          (find key (convert_args_to_vllm_config syntax user_args))
          (find key (defaults model_id revision request_gpu gpu_count))
unfolding build_vllm_config convert_args_to_vllm_config find
find-build_vllm_config syntax key model_id revision request_gpu gpu_count [] = refl
find-build_vllm_config syntax key model_id revision request_gpu gpu_count (arg ∷ args) =
    find-put_all key (convert_args_to_vllm_config syntax (arg ∷ args))
      (defaults model_id revision request_gpu gpu_count)
      (convert_args_to_vllm_config-HasUniqueFields syntax (arg ∷ args))

-- Remote code is trusted exactly as the user's arguments say; only where they do not say is it false.
pub trust_remote_code_lem :
    (syntax : Syntax) (model_id revision : String) (request_gpu : Bool) (gpu_count : ℕ)
    (user_args : List String)
    → find "trust_remote_code"
        (build_vllm_config syntax model_id revision request_gpu gpu_count user_args)
      ≡ or_else
          (find "trust_remote_code" (convert_args_to_vllm_config syntax user_args))
          (some (bool false))
unfolding defaults
trust_remote_code_lem syntax model_id revision request_gpu gpu_count user_args =
    rw
      (
        find-build_vllm_config syntax "trust_remote_code" model_id revision request_gpu gpu_count
            user_args,
        find-put "trust_remote_code" "trust_remote_code",
      )
      refl
