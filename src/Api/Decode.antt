-- ===== src/Api/Decode.antt =====
-- `ModelReference.UnmarshalJSON` (api/v1/llmengine_types.go). json.Unmarshal is a parameter: what it
-- makes of some data as a text, and as the fields of a reference.
use aitrigram.Base.{String, Bytes, Option, none, some}
use aitrigram.Api.Engine.{ModelReference}

abbrev pub update_policy_manual : String
update_policy_manual = "Manual"

-- A bare text names the reference and sets its policy; the revision stays.
named_reference : ModelReference → String → ModelReference
named_reference old name = record old { name = name; update_policy = update_policy_manual }

text_or_object : ModelReference → Option ModelReference → Option String → Option ModelReference
text_or_object old object (some name) = some (named_reference old name)
text_or_object old object none = object

module _ (text : Bytes → Option String) (object : Bytes → Option ModelReference) where
  -- `none` is the error; `old` is what the receiver points to.
  unfoldable pub unmarshal_json : (old : ModelReference) → Bytes → Option ModelReference
  unfolding text_or_object named_reference
  unmarshal_json old data_bytes = text_or_object old (object data_bytes) (text data_bytes)
