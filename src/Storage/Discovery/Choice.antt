-- ===== src/Storage/Discovery/Choice.antt =====
-- What the choice of a StorageClass promises.
use mathlib.Core.List.{Memᴰ}
use aitrigram.Base.{
  String, ◌≡◌, sym, Bytes, bytes, ◌≢◌, ◌↔◌, ◌⊎◌, inl, inr, List, [], ◌∷◌, map, Bool, true, false,
  none, some, arith, All, All-imp, Bool-cases, Option-cases, ◌==◌, eq_iff, ◌||◌,
}
use aitrigram.Base.Results.{ok, err}
use aitrigram.Storage.Discovery.{
  read_write_many, read_write_once, is_rwx, is_rwo, StorageClass, StorageClassInfo, Kind, to_lower,
  kind_of, categorize_storage_class, find_first, select_auto, select_by_name, not_found,
  select_best_storage_class,
}

module _ {ℓ} {A : Type ℓ} (test : A → Bool) where
  find_first-eq-some :
      (xs : List A) {x : A} → find_first test xs ≡ some x → (test x ≡ true) × Memᴰ x xs
  unfolding find_first
  find_first-eq-some [] h = cc
  find_first-eq-some (y ∷ ys) {x} h = elim (Bool-cases (test y)) [
    | inl passes ↦
        let h' = (rw passes at h) in let e : y ≡ x = cc in (rw (← e) passes, Memᴰ.head (sym e))
    | inr fails ↦ let (passes, m) = find_first-eq-some ys (rw fails at h) in (passes, Memᴰ.tail m)
  ]

  find_first-eq-none_iff :
      (xs : List A) → (find_first test xs ≡ none) ↔ All (λ x. test x ≡ false) xs
  unfolding find_first
  find_first-eq-none_iff [] = ground arith
  find_first-eq-none_iff (x ∷ xs) = ground (arith, find_first-eq-none_iff xs)

-- The kinds with a shared access mode are those four.
abbrev pub IsSharedType : String → Type 0
IsSharedType t = (t ≡ "nfs") ⊎ (t ≡ "cephfs") ⊎ (t ≡ "glusterfs") ⊎ (t ≡ "longhorn")

abbrev pub HasModeOfType : Kind → Type 0
HasModeOfType (type, mode) =
    ((mode ≡ read_write_many) × IsSharedType type)
    ⊎ ((mode ≡ read_write_once) × ((type ≡ "local") ⊎ (type ≡ "block") ⊎ (type ≡ "unknown")))

kind_of-HasModeOfType : (p : Bytes) → HasModeOfType (kind_of p)
unfolding kind_of
kind_of-HasModeOfType p = ground arith

-- A class is shared exactly if its provisioner is of one of the four shared kinds; any other class,
-- an unknown one too, is taken to be writable from one node only.
pub categorize_storage_class-mode :
    (sc : StorageClass)
    → HasModeOfType ((categorize_storage_class sc).type, (categorize_storage_class sc).access_mode)
unfolding categorize_storage_class
categorize_storage_class-mode sc = kind_of-HasModeOfType (to_lower (bytes sc.provisioner))

-- The order of preference: a shared class, else the default class, else any.
abbrev pub IsPreferred : StorageClassInfo → List StorageClassInfo → Type 0
IsPreferred info available =
    (is_rwx info.access_mode ≡ true)
    ⊎ (All (λ i. is_rwx i.access_mode ≡ false) available
        × ((info.is_default ≡ true) ⊎ All (λ i. i.is_default ≡ false) available))

select_auto-IsPreferred :
    (available : List StorageClassInfo) {info : StorageClassInfo}
    → select_auto available ≡ some info
    → Memᴰ info available × IsPreferred info available
unfolding select_auto
select_auto-IsPreferred available {info} h =
    elim (Option-cases (find_first (λ i. is_rwx i.access_mode) available)) [
      | inr (shared, e) ↦
          let (rwx, m) = find_first-eq-some (λ i. is_rwx i.access_mode) available e in
          let same : shared ≡ info = cc in rw (← same) (m, inl rwx)
      | inl no_shared ↦
          let none_shared =
            (find_first-eq-none_iff (λ i. is_rwx i.access_mode) available).0 no_shared in
          elim (Option-cases (find_first (λ i. i.is_default) available)) [
            | inr (default, e) ↦
                let (marked, m) = find_first-eq-some (λ i. i.is_default) available e in
                let same : default ≡ info = cc in rw (← same) (m, inr (none_shared, inl marked))
            | inl no_default ↦
                let none_default =
                  (find_first-eq-none_iff (λ i. i.is_default) available).0 no_default in
                let (rwo, m) =
                  find_first-eq-some (λ i. is_rwo i.access_mode) available
                    (rw (no_shared, no_default) at h) in
                (m, inr (none_shared, inr none_default))
          ]
    ]

-- Some class is taken where the first one is shared or writable from one node.
select_auto_total :
    (i : StorageClassInfo) (is : List StorageClassInfo)
    → is_rwx i.access_mode || is_rwo i.access_mode ≡ true
    → select_auto (i ∷ is) ≢ none
unfolding select_auto find_first
select_auto_total i is h = ground arith

categorize_storage_class_usable :
    (sc : StorageClass)
    → is_rwx (categorize_storage_class sc).access_mode
        || is_rwo (categorize_storage_class sc).access_mode
      ≡ true
categorize_storage_class_usable sc = grind (arith, categorize_storage_class-mode sc)

abbrev pub IsAuto : String → Type 0
IsAuto preference = (preference ≡ "auto") ⊎ (preference ≡ "")

-- Without a preference, and with some class in the cluster, the choice succeeds: the class is one
-- of the cluster's, shared if any is, else the default if one is marked.
pub select_best_storage_class-auto :
    (sc : StorageClass) (scs : List StorageClass) (preference : String)
    → IsAuto preference
    → (info : StorageClassInfo) × (select_best_storage_class (ok (sc ∷ scs)) preference ≡ ok info)
      × Memᴰ info (map categorize_storage_class (sc ∷ scs))
      × IsPreferred info (map categorize_storage_class (sc ∷ scs))
unfolding select_best_storage_class
select_best_storage_class-auto sc scs preference auto =
    let available : List StorageClassInfo = map categorize_storage_class (sc ∷ scs) in
    elim (Option-cases (select_auto available)) [
      | inl failed ↦ absurd (
          select_auto_total (categorize_storage_class sc) (map categorize_storage_class scs)
            (categorize_storage_class_usable sc) failed)
      | inr (info, e) ↦
          let (m, preferred) = select_auto-IsPreferred available e in
          (info, ground (arith, eq_iff preference "auto", eq_iff preference ""), m, preferred)
    ]

differs : (s t : String) → s == t ≡ false → s ≢ t
differs s t h e = ground (arith, eq_iff s t)

-- For a preference that is neither empty nor auto, in a cluster with some class: either no class
-- has that name and the choice answers not found, or the choice is a class of the cluster with that
-- name.
pub select_best_storage_class-named :
    (sc : StorageClass) (scs : List StorageClass) (preference : String)
    → ¬ IsAuto preference
    → let available = map categorize_storage_class (sc ∷ scs) in
      let result = select_best_storage_class (ok (sc ∷ scs)) preference in
      ((result ≡ err (not_found preference)) × All (λ i. i.name ≢ preference) available)
      ⊎ ((info : StorageClassInfo) × (result ≡ ok info)
          × (info.name ≡ preference)
          × Memᴰ info available)
unfolding select_best_storage_class select_by_name
select_best_storage_class-named sc scs preference named =
    let available : List StorageClassInfo = map categorize_storage_class (sc ∷ scs) in
    elim (Option-cases (find_first (λ i. i.name == preference) available)) [
      | inl missing ↦ inl (
        ground (arith, eq_iff preference "auto", eq_iff preference ""),
        All-imp (λ i. differs i.name preference) available
            ((find_first-eq-none_iff (λ i. i.name == preference) available).0 missing),
      )
      | inr (info, e) ↦
          let (same, m) = find_first-eq-some (λ i. i.name == preference) available e in
          inr (
            info,
            ground (arith, eq_iff preference "auto", eq_iff preference ""),
            (eq_iff info.name preference).0 same,
            m,
          )
    ]
