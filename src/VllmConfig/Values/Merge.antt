-- ===== src/VllmConfig/Values/Merge.antt =====
-- A merge, key by key.
use aitrigram.Base.{
  String, ◌≡◌, refl, ◌∙◌, Option, none, some, arith, eq_iff, if◌then◌else◌, ◌==◌, inl, inr, ◌⊎◌,
  Bool-cases,
}
use aitrigram.VllmConfig.Values.{
  Value, null, bool, int, float, text, array, object, Fields, end, field, find, put, merge_value,
  recursive_merge,
}

pub find-put :
    (key asked : String) (new : Value) (fs : Fields)
    → find asked (put key new fs) ≡ (if key == asked then some new else find asked fs)
unfolding find put
find-put key asked new end = refl
find-put key asked new (field k v fs) =
    let ih = find-put key asked new fs in
    ground (arith, ih, eq_iff k asked, eq_iff k key, eq_iff key asked)

-- No key stands twice.
abbrev pub HasUniqueFields : Fields → Type 0
HasUniqueFields end = Unit
HasUniqueFields (field k v fs) = (find k fs ≡ none) × HasUniqueFields fs

-- A key that the source has gets the merged value, any other keeps the destination's.
abbrev pub merged : Option Value → Option Value → Option Value
merged old none = old
merged old (some new) = some (merge_value old new)

-- Where no key of the source stands twice: every key that it has gets the merge of the two values,
-- any other key is as in the destination.
pub find-recursive_merge :
    (key : String) (dst src : Fields)
    → HasUniqueFields src
    → find key (recursive_merge dst src) ≡ merged (find key dst) (find key src)
unfolding recursive_merge find
find-recursive_merge key dst end u = refl
find-recursive_merge key dst (field k v src) (fresh, u) =
    let ih = find-recursive_merge key (put k (merge_value (find k dst) v) dst) src u in
    let there = find-put k key (merge_value (find k dst) v) dst in
    elim (Bool-cases (k == key)) [
      | inl same ↦
          let e : k ≡ key = (eq_iff k key).0 same in
          let absent : find key src ≡ none = rw e at fresh in ih ∙ rw (absent, there, same, e) refl
      | inr other ↦ ih ∙ rw (there, other) refl
    ]

-- The new value takes the place of the old one, but two objects become one.
pub merge_value-cases :
    (old : Option Value) (new : Value)
    → (merge_value old new ≡ new)
      ⊎ ((dst src : Fields) × (old ≡ some (object dst))
          × (new ≡ object src)
          × (merge_value old new ≡ object (recursive_merge dst src)))
unfolding merge_value
merge_value-cases old null = inl refl
merge_value-cases old (bool b) = inl refl
merge_value-cases old (int n m) = inl refl
merge_value-cases old (float t) = inl refl
merge_value-cases old (text t) = inl refl
merge_value-cases old (array xs) = inl refl
merge_value-cases none (object src) = inl refl
merge_value-cases (some null) (object src) = inl refl
merge_value-cases (some (bool b)) (object src) = inl refl
merge_value-cases (some (int n m)) (object src) = inl refl
merge_value-cases (some (float t)) (object src) = inl refl
merge_value-cases (some (text t)) (object src) = inl refl
merge_value-cases (some (array xs)) (object src) = inl refl
merge_value-cases (some (object dst)) (object src) = inr (dst, src, refl, refl, refl)
