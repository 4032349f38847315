-- ===== src/VllmConfig/Arguments/Unique.antt =====
-- A converted configuration has no key twice.
use aitrigram.Base.{
  String, refl, List, [], ◌∷◌, true, Option, none, some, arith, eq_iff, ◌==◌, inl, inr, Bool-cases,
}
use aitrigram.VllmConfig.Values.{
  Value, bool, Fields, end, field, find, put, merge_value, recursive_merge, create_nested_map,
}
use aitrigram.VllmConfig.Values.Merge.{HasUniqueFields, find-put}
use aitrigram.VllmConfig.Text.{has_dot, split_dots}
use aitrigram.VllmConfig.Arguments.{
  Syntax, Reading, ignored, pair, word, read, parse_value, set_value, merge_if_any, take_alone,
  takes_next, take_with, convert_from, convert_args_to_vllm_config,
}

put-HasUniqueFields :
    (key : String) (new : Value) (fs : Fields)
    → HasUniqueFields fs
    → HasUniqueFields (put key new fs)
unfolding put find
put-HasUniqueFields key new end u = (refl, tt)
put-HasUniqueFields key new (field k v fs) (fresh, u) = elim (Bool-cases (k == key)) [
  | inl same ↦ rw same (rw (← (eq_iff k key).0 same) fresh, u)
  | inr other ↦ rw other (
    ground (arith, find-put key k new fs, eq_iff k key, eq_iff key k),
    put-HasUniqueFields key new fs u,
  )
]

recursive_merge-HasUniqueFields :
    (dst src : Fields) → HasUniqueFields dst → HasUniqueFields (recursive_merge dst src)
unfolding recursive_merge
recursive_merge-HasUniqueFields dst end u = u
recursive_merge-HasUniqueFields dst (field k v src) u =
    recursive_merge-HasUniqueFields (put k (merge_value (find k dst) v) dst) src
      (put-HasUniqueFields k (merge_value (find k dst) v) dst u)

merge_if_any-HasUniqueFields :
    (syntax : Syntax) (config : Fields) (nested : Option Fields)
    → HasUniqueFields config
    → HasUniqueFields (merge_if_any syntax config nested)
unfolding merge_if_any
merge_if_any-HasUniqueFields syntax config none u = u
merge_if_any-HasUniqueFields syntax config (some nested) u =
    recursive_merge-HasUniqueFields config nested u

module _ (syntax : Syntax) where
  set_value-HasUniqueFields :
      (key : String) (v : Value) (config : Fields)
      → HasUniqueFields config
      → HasUniqueFields (set_value syntax key v config)
  unfolding set_value
  set_value-HasUniqueFields key v config u = elim (Bool-cases (has_dot key)) [
    | inl dotted ↦
        rw dotted
          (merge_if_any-HasUniqueFields syntax config (create_nested_map (split_dots key) v) u)
    | inr plain ↦ rw plain (put-HasUniqueFields key (merge_value (find key config) v) config u)
  ]

  take_alone-HasUniqueFields :
      (r : Reading) (config : Fields)
      → HasUniqueFields config
      → HasUniqueFields (take_alone syntax r config)
  unfolding take_alone
  take_alone-HasUniqueFields ignored config u = u
  take_alone-HasUniqueFields (pair key value) config u =
      set_value-HasUniqueFields key (parse_value syntax value) config u
  take_alone-HasUniqueFields (word key) config u = put-HasUniqueFields key (bool true) config u

  take_with-HasUniqueFields :
      (r : Reading) (next : String) (config : Fields)
      → HasUniqueFields config
      → HasUniqueFields (take_with syntax r next config)
  unfolding take_with
  take_with-HasUniqueFields ignored next config u = u
  take_with-HasUniqueFields (pair key value) next config u = u
  take_with-HasUniqueFields (word key) next config u =
      set_value-HasUniqueFields key (parse_value syntax next) config u

  convert_from-HasUniqueFields :
      (config : Fields) (args : List String)
      → HasUniqueFields config
      → HasUniqueFields (convert_from syntax config args)
  unfolding convert_from
  convert_from-HasUniqueFields config [] u = u
  convert_from-HasUniqueFields config (arg ∷ []) u = take_alone-HasUniqueFields (read arg) config u
  convert_from-HasUniqueFields config (arg ∷ next ∷ rest) u =
      elim (Bool-cases (takes_next syntax (read arg) next)) [
        | inl takes ↦
            rw (takes, convert_from)
              (convert_from-HasUniqueFields (take_with syntax (read arg) next config) rest
                (take_with-HasUniqueFields (read arg) next config u))
        | inr not_it ↦
            rw (not_it, convert_from)
              (convert_from-HasUniqueFields (take_alone syntax (read arg) config) (next ∷ rest)
                (take_alone-HasUniqueFields (read arg) config u))
      ]

  -- Whatever the arguments, the configuration that they are converted into has no key twice.
  pub convert_args_to_vllm_config-HasUniqueFields :
      (args : List String) → HasUniqueFields (convert_args_to_vllm_config syntax args)
  unfolding convert_args_to_vllm_config
  convert_args_to_vllm_config-HasUniqueFields args = convert_from-HasUniqueFields end args tt
