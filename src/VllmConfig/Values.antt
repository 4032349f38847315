-- ===== src/VllmConfig/Values.antt =====
-- Go's map[string]interface{} as the configuration holds it, `createNestedMap` and
-- `recursiveMerge`. A map that is read while it is merged has unique keys, so that the order of an
-- iteration does not show. The source of a merge is always fresh, so that no map is shared.
pub mod Merge
pub mod Nested
use aitrigram.Base.{ℕ, String, List, [], ◌∷◌, Bool, Option, none, some, if◌then◌else◌, ◌==◌}

-- A JSON value; a float is kept as its text.
mutual
  pub data Value : Type 0 where
    null : Value
    bool : Bool → Value
    int : (negative : Bool) (magnitude : ℕ) → Value
    float : String → Value
    text : String → Value
    array : Items → Value
    object : Fields → Value

  pub data Items : Type 0 where
    nil : Items
    cons : Value → Items → Items

  pub data Fields : Type 0 where
    end : Fields
    field : String → Value → Fields → Fields

unfoldable pub find : String → Fields → Option Value
find key end = none
find key (field k v fs) = if k == key then some v else find key fs

-- config[key] = new
unfoldable pub put : String → Value → Fields → Fields
put key new end = field key new end
put key new (field k v fs) = if k == key then field key new fs else field k v (put key new fs)

-- What a key of the source becomes, from what the destination has there.
unfoldable mutual
  pub merge_value : Option Value → Value → Value
  merge_value old null = null
  merge_value old (bool b) = bool b
  merge_value old (int n m) = int n m
  merge_value old (float t) = float t
  merge_value old (text t) = text t
  merge_value old (array xs) = array xs
  merge_value none (object src) = object src
  merge_value (some (object dst)) (object src) = object (recursive_merge dst src)
  merge_value (some null) (object src) = object src
  merge_value (some (bool b)) (object src) = object src
  merge_value (some (int n m)) (object src) = object src
  merge_value (some (float t)) (object src) = object src
  merge_value (some (text t)) (object src) = object src
  merge_value (some (array xs)) (object src) = object src

  pub recursive_merge : (dst src : Fields) → Fields
  recursive_merge dst end = dst
  recursive_merge dst (field k v src) = recursive_merge (put k (merge_value (find k dst) v) dst) src

-- From the innermost key outward; `none` is the nil map of no keys.
unfoldable pub nest : List String → Value → Value
nest [] v = v
nest (k ∷ ks) v = object (field k (nest ks v) end)

unfoldable pub create_nested_map : List String → Value → Option Fields
create_nested_map [] v = none
create_nested_map (k ∷ ks) v = some (field k (nest ks v) end)
