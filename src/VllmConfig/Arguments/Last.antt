-- ===== src/VllmConfig/Arguments/Last.antt =====
-- What the last option on the command line leaves in the configuration.
use aitrigram.Base.{String, ◌≡◌, List, [], ◌∷◌, true, false, Option, none, some, ◌⊎◌, strip_prefix}
use aitrigram.VllmConfig.Values.{Value, bool, object, Fields, find, recursive_merge}
use aitrigram.VllmConfig.Text.{cut}
use aitrigram.VllmConfig.Arguments.{Syntax, is_option, parse_value}

-- Arguments that spell one option of a name: "--name=value", "--name value" where the value starts
-- with no dashes, or the flag "--name".
pub data Spells (name : String) : List String → Option String → Type 0 where
  joined :
      (arg body value : String)
      → strip_prefix "--" arg ≡ some body
      → cut body ≡ some (name, value)
      → Spells name (arg ∷ []) (some value)
  apart :
      (arg value : String)
      → strip_prefix "--" arg ≡ some name
      → cut name ≡ none
      → is_option value ≡ false
      → Spells name (arg ∷ value ∷ []) (some value)
  flag :
      (arg : String)
      → strip_prefix "--" arg ≡ some name
      → cut name ≡ none
      → Spells name (arg ∷ []) none

module _ (syntax : Syntax) where
  -- A flag is true.
  abbrev pub spelled : Option String → Value
  spelled none = bool true
  spelled (some value) = parse_value syntax value

  -- The key has the new value, or the object that it had merged with the new one; the other key has
  -- what it had.
  abbrev pub Sets : (key other : String) → Value → (before after : Fields) → Type 0
  Sets key other new before after =
      ((find key after ≡ some new)
        ⊎ ((was now : Fields) × (find key before ≡ some (object was))
            × (new ≡ object now)
            × (find key after ≡ some (object (recursive_merge was now)))))
      × (find other after ≡ find other before)
