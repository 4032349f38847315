-- ===== src/VllmConfig/Build/Tests.antt =====
-- Configurations computed, and the theorems about them at concrete inputs.
use aitrigram.Base.{
  ◌⊎◌, inl, inr, arith, eq_iff, String, ◌≡◌, refl, List, [], ◌∷◌, ◌++◌, true, false, none, some,
  or_else, strip_prefix,
}
use aitrigram.VllmConfig.Values.{
  bool, int, text, object, Fields, end, field, find, put, recursive_merge, nest, create_nested_map,
}
use aitrigram.VllmConfig.Values.Merge.{merged, find-recursive_merge}
use aitrigram.VllmConfig.Values.Nested.{at_path, at_path-recursive_merge}
use aitrigram.VllmConfig.Text.{cut, underscored, split_dots, has_dot, is_json_syntax, try_parse_int}
use aitrigram.VllmConfig.Arguments.{
  Syntax, read, parse_value, set_value, take_alone, takes_next, take_with, convert_from,
  convert_args_to_vllm_config,
}
use aitrigram.VllmConfig.Arguments.Order.{convert_from-append}
use aitrigram.VllmConfig.Build.{defaults, build_vllm_config}
use aitrigram.VllmConfig.Build.Overrides.{find-build_vllm_config, trust_remote_code_lem}

-- No floats and no JSON.
abbrev plain : Syntax
plain = record { parse_float = λ t. none; unmarshal = λ t. none }

abbrev args : List String
args =
    "--dtype=float16" ∷ "--max-model-len" ∷ "4096" ∷ "--compilation-config.mode=3"
    ∷ "--trust-remote-code" ∷ []

args_test :
    convert_args_to_vllm_config plain args
    ≡ field "dtype" (text "float16") (
        field "max_model_len" (int false 4096) (
          field "compilation_config"
            (object (field "mode" (int false 3) end))
            (field "trust_remote_code" (bool true) end)))
unfolding convert_args_to_vllm_config read strip_prefix cut underscored split_dots has_dot
    is_json_syntax try_parse_int parse_value set_value take_alone takes_next take_with find put
    recursive_merge create_nested_map nest
args_test = refl

abbrev old : Fields
old = field "a" (object (field "b" (int false 1) end)) end

abbrev nested : Fields
nested = field "a" (object (field "c" (int false 2) end)) end

find-recursive_merge_example :
    find "a" (recursive_merge old nested) ≡ merged (find "a" old) (find "a" nested)
unfolding find
find-recursive_merge_example = find-recursive_merge "a" old nested (refl, tt)

at_path-recursive_merge_example :
    let merged = some (object (recursive_merge old nested)) in
    ((at_path merged ("a" ∷ "c" ∷ []) ≡ some (int false 2))
      ⊎ ((was now : Fields) × (at_path (some (object old)) ("a" ∷ "c" ∷ []) ≡ some (object was))
          × (int false 2 ≡ object now)
          × (at_path merged ("a" ∷ "c" ∷ []) ≡ some (object (recursive_merge was now)))))
    × (at_path merged ("a" ∷ "b" ∷ []) ≡ at_path (some (object old)) ("a" ∷ "b" ∷ []))
unfolding create_nested_map nest
at_path-recursive_merge_example =
    at_path-recursive_merge ("a" ∷ "c" ∷ []) ("a" ∷ "b" ∷ []) (int false 2) nested old refl
      (inr (refl, inl (ground (arith, eq_iff "c" "b"))))

convert_from-append_example :
    convert_from plain end (("--max-model-len" ∷ []) ++ "--dtype=auto" ∷ [])
    ≡ convert_from plain (convert_from plain end ("--max-model-len" ∷ [])) ("--dtype=auto" ∷ [])
unfolding strip_prefix
convert_from-append_example =
    convert_from-append plain end ("--max-model-len" ∷ []) [] "--dtype=auto" refl

find-build_vllm_config_example :
    find "dtype" (build_vllm_config plain "m" "" true 2 args)
    ≡ or_else
        (find "dtype" (convert_args_to_vllm_config plain args))
        (find "dtype" (defaults "m" "" true 2))
find-build_vllm_config_example = find-build_vllm_config plain "dtype" "m" "" true 2 args

trust_remote_code_lem_example :
    find "trust_remote_code" (build_vllm_config plain "m" "" true 2 args)
    ≡ or_else
        (find "trust_remote_code" (convert_args_to_vllm_config plain args))
        (some (bool false))
trust_remote_code_lem_example = trust_remote_code_lem plain "m" "" true 2 args
