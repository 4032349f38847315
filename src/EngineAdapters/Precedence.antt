-- ===== src/EngineAdapters/Precedence.antt =====
-- Which of several sources decides an environment variable, a resource or a node selector.
use aitrigram.Base.{
  String, ◌≡◌, refl, sym, ap, ◌∙◌, List, [], ◌∷◌, ◌++◌, Bool, true, false, Option, none, some,
  is_some, if◌then◌else◌, ◌==◌, arith, eq_iff, inl, inr, Bool-cases, Option-cases, Map, lookup,
  insert, insert_all, HasUniqueKeys, or_else, lookup-insert, lookup-insert_all,
}
use aitrigram.Api.Engine.{EnvVar, GpuConfig, LlmEngine, ResourceRequirements}
use aitrigram.EngineAdapters.{
  is_defined, not_overridden, merge_env_vars, merge_resource_requirements,
  get_default_gpu_node_selector, insert_missing, build_gpu_node_selector,
}

-- The first variable of a name.
unfoldable pub find_env : String → List EnvVar → Option EnvVar
find_env name [] = none
find_env name (e ∷ es) = if e.name == name then some e else find_env name es

find_env-append :
    (name : String) (es fs : List EnvVar)
    → find_env name (es ++ fs) ≡ or_else (find_env name es) (find_env name fs)
unfolding find_env
find_env-append name [] fs = refl
find_env-append name (e ∷ es) fs = ground (arith, find_env-append name es fs)

is_defined-eq-is_some :
    (name : String) (es : List EnvVar) → is_defined es name ≡ is_some (find_env name es)
unfolding is_defined find_env
is_defined-eq-is_some name [] = refl
is_defined-eq-is_some name (e ∷ es) = ground (arith, is_defined-eq-is_some name es)

find_env-not_overridden :
    (name : String) (user es : List EnvVar)
    → is_defined user name ≡ false
    → find_env name (not_overridden user es) ≡ find_env name es
unfolding find_env not_overridden
find_env-not_overridden name user [] free = refl
find_env-not_overridden name user (e ∷ es) free =
    ground (arith, eq_iff e.name name, find_env-not_overridden name user es free)

-- A variable that the user defines is the user's, any other is the default one, if there is one.
pub find_env-merge_env_vars :
    (name : String) (default user : List EnvVar)
    → find_env name (merge_env_vars default user)
      ≡ or_else (find_env name user) (find_env name default)
unfolding merge_env_vars
find_env-merge_env_vars name default user = elim (Option-cases (find_env name user)) [
  | inl missing ↦
      rw (find_env-append name user (not_overridden user default), missing)
        (find_env-not_overridden name user default
          (is_defined-eq-is_some name user ∙ ap is_some missing))
  | inr (e, found) ↦ rw (find_env-append name user (not_overridden user default), found) refl
]

or_else-none : {A : Type 0} (o : Option A) → or_else o none ≡ o
or_else-none none = refl
or_else-none (some a) = refl

or_else_if :
    (o : Option String) (b : Bool) (v : String) (rest : Option String)
    → or_else (or_else o (if b then some v else none)) rest ≡ or_else o (if b then some v else rest)
or_else_if none true v rest = refl
or_else_if none false v rest = refl
or_else_if (some a) b v rest = refl

lookup-insert_if_missing :
    (j k v : String) (dst : Map String)
    → lookup j (if is_some (lookup k dst) then dst else insert k v dst)
      ≡ or_else (lookup j dst) (if k == j then some v else none)
lookup-insert_if_missing j k v dst = elim (Option-cases (lookup k dst)) [
  | inl missing ↦ elim (Bool-cases (k == j)) [
    | inl same ↦
        let there : lookup j dst ≡ none = rw ((eq_iff k j).0 same) at missing in
        rw (missing, lookup-insert k j v dst, same, there) refl
    | inr other ↦ rw (missing, lookup-insert k j v dst, other) (sym (or_else-none (lookup j dst)))
  ]
  | inr (w, found) ↦ elim (Bool-cases (k == j)) [
    | inl same ↦
        let there : lookup j dst ≡ some w = rw ((eq_iff k j).0 same) at found in
        rw (found, same, there) refl
    | inr other ↦ rw (found, other) (sym (or_else-none (lookup j dst)))
  ]
]

pub lookup-insert_missing :
    (j : String) (src dst : Map String)
    → lookup j (insert_missing src dst) ≡ or_else (lookup j dst) (lookup j src)
unfolding insert_missing lookup
lookup-insert_missing j [] dst = sym (or_else-none (lookup j dst))
lookup-insert_missing j ((k, v) ∷ src) dst =
    lookup-insert_missing j src (if is_some (lookup k dst) then dst else insert k v dst)
    ∙ ap (λ o. or_else o (lookup j src)) (lookup-insert_if_missing j k v dst)
    ∙ or_else_if (lookup j dst) (k == j) v (lookup j src)

lookup-insert_all_both :
    (k : String) (a b : Map String)
    → HasUniqueKeys a
    → HasUniqueKeys b
    → lookup k (insert_all a (insert_all b [])) ≡ or_else (lookup k a) (lookup k b)
unfolding lookup
lookup-insert_all_both k a b u w =
    rw
      (
        lookup-insert_all k a (insert_all b []) u,
        lookup-insert_all k b [] w,
        or_else-none (lookup k b),
      )
      refl

-- If the keys of the two selectors are unique: a label that the GPU configuration selects decides,
-- then one that the engine selects, then the default for the type of GPU.
pub lookup-build_gpu_node_selector :
    (k : String) (gpu : GpuConfig) (engine : LlmEngine)
    → HasUniqueKeys gpu.node_selector
    → HasUniqueKeys engine.spec.node_selector
    → lookup k (build_gpu_node_selector gpu engine)
      ≡ or_else
          (or_else (lookup k gpu.node_selector) (lookup k engine.spec.node_selector))
          (lookup k (get_default_gpu_node_selector gpu.type))
unfolding build_gpu_node_selector
lookup-build_gpu_node_selector k gpu engine u w =
    rw
      (
        lookup-insert_missing k (get_default_gpu_node_selector gpu.type) _,
        lookup-insert_all_both k gpu.node_selector engine.spec.node_selector u w,
      )
      refl

-- If the keys of the four lists are unique: a resource that the additional requirements limit has
-- their limit, any other the base's, and so for the requests.
pub lookup-merge_resource_requirements :
    (k : String) (base additional : ResourceRequirements)
    → HasUniqueKeys base.limits
    → HasUniqueKeys base.requests
    → HasUniqueKeys additional.limits
    → HasUniqueKeys additional.requests
    → (lookup k (merge_resource_requirements base additional).limits
        ≡ or_else (lookup k additional.limits) (lookup k base.limits))
      × (lookup k (merge_resource_requirements base additional).requests
          ≡ or_else (lookup k additional.requests) (lookup k base.requests))
unfolding merge_resource_requirements
lookup-merge_resource_requirements k base additional b r a q = (
  lookup-insert_all_both k additional.limits base.limits a b,
  lookup-insert_all_both k additional.requests base.requests q r,
)
