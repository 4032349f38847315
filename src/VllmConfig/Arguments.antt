-- ===== src/VllmConfig/Arguments.antt =====
-- `ConvertArgsToVLLMConfig`: an engine's arguments as a configuration.
pub mod Order
pub mod Unique
pub mod Last
use aitrigram.Base.{
  ℕ, String, List, [], ◌∷◌, Bool, true, false, not, ◌||◌, Option, none, some, is_some,
  if◌then◌else◌, ◌==◌, strip_prefix,
}
use aitrigram.VllmConfig.Values.{
  Value, bool, int, float, text, Fields, end, find, put, merge_value, recursive_merge,
  create_nested_map,
}
use aitrigram.VllmConfig.Text.{cut, underscored, split_dots, has_dot, is_json_syntax, try_parse_int}

-- strconv.ParseFloat for 64 bits, by the text of the number, and json.Unmarshal into an interface.
pub record Syntax : Type 0 where
  pub parse_float : String → Option String
  pub unmarshal : String → Option Value

-- An argument by its form: no option; an option with its value; an option alone.
pub data Reading : Type 0 where
  ignored : Reading
  pair : (key value : String) → Reading
  word : (key : String) → Reading

cut_or_word : Option (String × String) → String → Reading
cut_or_word (some (key, value)) body = pair (underscored key) value
cut_or_word none body = word (underscored body)

without_dashes : Option String → Reading
without_dashes none = ignored
without_dashes (some body) = cut_or_word (cut body) body

-- The "=" is looked for behind the dashes, where it is if it is anywhere.
unfoldable pub read : String → Reading
unfolding without_dashes cut_or_word
read arg = without_dashes (strip_prefix "--" arg)

abbrev pub is_option : String → Bool
is_option arg = is_some (strip_prefix "--" arg)

or_text : String → Option Value → Value
or_text value none = text value
or_text value (some v) = v

float_or_text : String → Option String → Value
float_or_text value (some f) = float f
float_or_text value none =
    if value == "true" then bool true else if value == "false" then bool false else text value

int_or : String → Option String → Option (Bool × ℕ) → Value
int_or value f (some (negative, n)) = int negative n
int_or value f none = float_or_text value f

module _ (syntax : Syntax) where
  unfoldable pub parse_value : String → Value
  unfolding or_text float_or_text int_or
  parse_value value =
      if is_json_syntax value
      then or_text value (syntax.unmarshal value)
      else int_or value (syntax.parse_float value) (try_parse_int value)

  merge_if_any : Fields → Option Fields → Fields
  merge_if_any config none = config
  merge_if_any config (some nested) = recursive_merge config nested

  -- A dotted key is merged as a nested map; at the root an object is merged into an object, and
  -- anything else is overwritten, as `merge_value` does.
  unfoldable pub set_value : (key : String) → Value → Fields → Fields
  unfolding merge_if_any
  set_value key v config =
      if has_dot key
      then merge_if_any config (create_nested_map (split_dots key) v)
      else put key (merge_value (find key config) v) config

  -- An argument that takes no other for its value; a flag is set at the root, dots and all.
  unfoldable pub take_alone : Reading → Fields → Fields
  take_alone ignored config = config
  take_alone (pair key value) config = set_value key (parse_value value) config
  take_alone (word key) config = put key (bool true) config

  unfoldable pub takes_next : Reading → String → Bool
  takes_next ignored next = false
  takes_next (pair key value) next = false
  takes_next (word key) next = not (is_option next)

  unfoldable pub take_with : Reading → String → Fields → Fields
  take_with ignored next config = config
  take_with (pair key value) next config = config
  take_with (word key) next config = set_value key (parse_value next) config

  -- The loop: an argument that is taken for a value is skipped.
  unfoldable pub convert_from : Fields → List String → Fields
  convert_from config [] = config
  convert_from config (arg ∷ []) = take_alone (read arg) config
  convert_from config (arg ∷ next ∷ rest) = elim (takes_next (read arg) next) [
    | true ↦ convert_from (take_with (read arg) next config) rest
    | false ↦ convert_from (take_alone (read arg) config) (next ∷ rest)
  ]

  unfoldable pub convert_args_to_vllm_config : List String → Fields
  unfolding convert_from
  convert_args_to_vllm_config args = convert_from end args
