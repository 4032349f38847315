-- ===== src/VllmConfig/Values/Nested.antt =====
-- A value at the end of a path of keys.
use aitrigram.Base.{
  ◌≢◌, ◌⊎◌, inl, inr, String, ◌≡◌, refl, ◌∙◌, ap, List, [], ◌∷◌, Option, none, some, arith, eq_iff,
}
use aitrigram.VllmConfig.Values.{
  Value, null, bool, int, float, text, array, object, Fields, end, field, find, merge_value,
  recursive_merge, nest, create_nested_map,
}
use aitrigram.VllmConfig.Values.Merge.{find-put, merge_value-cases}

-- What an object has at a key.
abbrev pub child : String → Option Value → Option Value
child k (some (object fs)) = find k fs
child k none = none
child k (some null) = none
child k (some (bool b)) = none
child k (some (int n m)) = none
child k (some (float t)) = none
child k (some (text t)) = none
child k (some (array xs)) = none

-- The value at a path, through objects only.
abbrev pub at_path : Option Value → List String → Option Value
at_path old [] = old
at_path old (k ∷ ks) = at_path (child k old) ks

merge_value-none : (v : Value) → merge_value none v ≡ v
unfolding merge_value
merge_value-none null = refl
merge_value-none (bool b) = refl
merge_value-none (int n m) = refl
merge_value-none (float t) = refl
merge_value-none (text t) = refl
merge_value-none (array xs) = refl
merge_value-none (object fs) = refl

-- One key of a merge with a nested map.
child-merge_value :
    (k : String) (old : Option Value) (new : Value)
    → child k (some (merge_value old (object (field k new end))))
      ≡ some (merge_value (child k old) new)
unfolding merge_value find
child-merge_value k none new = rw (merge_value-none new) (ground (arith, eq_iff k k))
child-merge_value k (some null) new = rw (merge_value-none new) (ground (arith, eq_iff k k))
child-merge_value k (some (bool b)) new = rw (merge_value-none new) (ground (arith, eq_iff k k))
child-merge_value k (some (int n m)) new = rw (merge_value-none new) (ground (arith, eq_iff k k))
child-merge_value k (some (float t)) new = rw (merge_value-none new) (ground (arith, eq_iff k k))
child-merge_value k (some (text t)) new = rw (merge_value-none new) (ground (arith, eq_iff k k))
child-merge_value k (some (array xs)) new = rw (merge_value-none new) (ground (arith, eq_iff k k))
child-merge_value k (some (object dst)) new =
    find-put k k (merge_value (find k dst) new) dst ∙ ground (arith, eq_iff k k)

at_path-merge_value :
    (ks : List String) (old : Option Value) (new : Value)
    → at_path (some (merge_value old (nest ks new))) ks ≡ some (merge_value (at_path old ks) new)
unfolding nest
at_path-merge_value [] old new = refl
at_path-merge_value (k ∷ ks) old new =
    ap (λ o. at_path o ks) (child-merge_value k old (nest ks new))
    ∙ at_path-merge_value ks (child k old) new

-- The paths part at some key.
abbrev pub Diverges : (keys other : List String) → Type 0
Diverges [] other = ⊥
Diverges (k ∷ ks) [] = ⊥
Diverges (k ∷ ks) (j ∷ js) = (k ≢ j) ⊎ ((k ≡ j) × Diverges ks js)

-- Any other key of a merge with a nested map.
child-merge_value_other :
    (k j : String) (old : Option Value) (new : Value)
    → k ≢ j
    → child j (some (merge_value old (object (field k new end)))) ≡ child j old
unfolding merge_value find
child-merge_value_other k j none new other = ground (arith, eq_iff k j)
child-merge_value_other k j (some null) new other = ground (arith, eq_iff k j)
child-merge_value_other k j (some (bool b)) new other = ground (arith, eq_iff k j)
child-merge_value_other k j (some (int n m)) new other = ground (arith, eq_iff k j)
child-merge_value_other k j (some (float t)) new other = ground (arith, eq_iff k j)
child-merge_value_other k j (some (text t)) new other = ground (arith, eq_iff k j)
child-merge_value_other k j (some (array xs)) new other = ground (arith, eq_iff k j)
child-merge_value_other k j (some (object dst)) new other =
    find-put k j (merge_value (find k dst) new) dst ∙ ground (arith, eq_iff k j)

at_path-merge_value_other :
    (keys other : List String) (old : Option Value) (new : Value)
    → Diverges keys other
    → at_path (some (merge_value old (nest keys new))) other ≡ at_path old other
unfolding nest
at_path-merge_value_other [] other old new d = absurd d
at_path-merge_value_other (k ∷ ks) [] old new d = absurd d
at_path-merge_value_other (k ∷ ks) (j ∷ js) old new (inl apart) =
    ap (λ o. at_path o js) (child-merge_value_other k j old (nest ks new) apart)
at_path-merge_value_other (k ∷ ks) (j ∷ js) old new (inr (same, d)) = rw (← same) (
    ap (λ o. at_path o js) (child-merge_value k old (nest ks new))
    ∙ at_path-merge_value_other ks js (child k old) new d)

-- The nested map is what a single value merges into an object.
merge-nested :
    (keys : List String) (new : Value) (nested dst : Fields)
    → create_nested_map keys new ≡ some nested
    → object (recursive_merge dst nested) ≡ merge_value (some (object dst)) (nest keys new)
unfolding create_nested_map nest merge_value
merge-nested [] new nested dst h = cc
merge-nested (k ∷ ks) new nested dst h =
    let e : field k (nest ks new) end ≡ nested = cc in rw (← e) refl

-- Where a nested map of keys is merged into a configuration: at the path of the keys there is the
-- new value, or, if that is an object and one stood there before, the merge of the two; at any path
-- that parts from the keys somewhere, beside the path's end or above it, there is what was there.
pub at_path-recursive_merge :
    (keys other : List String) (new : Value) (nested dst : Fields)
    → create_nested_map keys new ≡ some nested
    → Diverges keys other
    → let merged = some (object (recursive_merge dst nested)) in
      ((at_path merged keys ≡ some new)
        ⊎ ((was now : Fields) × (at_path (some (object dst)) keys ≡ some (object was))
            × (new ≡ object now)
            × (at_path merged keys ≡ some (object (recursive_merge was now)))))
      × (at_path merged other ≡ at_path (some (object dst)) other)
at_path-recursive_merge keys other new nested dst h d =
    let old = some (object dst) in
    let merges = ap some (merge-nested keys new nested dst h) in
    let there = ap (λ o. at_path o keys) merges ∙ at_path-merge_value keys old new in
    let beside =
      ap (λ o. at_path o other) merges ∙ at_path-merge_value_other keys other old new d in
    elim (merge_value-cases (at_path old keys) new) [
      | inl replaced ↦ (inl (there ∙ ap some replaced), beside)
      | inr (was, now, stood, same, both) ↦
          (inr (was, now, stood, same, there ∙ ap some both), beside)
    ]
