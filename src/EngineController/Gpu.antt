-- ===== src/EngineController/Gpu.antt =====
-- `validateGPUAvailability`: a node with enough GPUs, the one that the storage is bound to where
-- there is one.
pub mod Suitable
use aitrigram.Base.{
  ℕ, String, List, [], ◌∷◌, length, Bool, true, false, ◌&&◌, not, Option, none, some, all, ltb,
  nat_eq, if◌then◌else◌, ◌==◌, is_blank, is_empty, Map, lookup,
}
use aitrigram.Base.Results.{Result, ok, err}
use aitrigram.Api.Repository.{ModelRepository}
use aitrigram.Api.Engine.{GpuConfig, LlmEngine}
use aitrigram.Cluster.{ApiError, Reply, M, pure, ask, ◌>>=◌, get_node, list_nodes}
use aitrigram.Cluster.Workloads.{Node}
use aitrigram.Storage.Node.{get_bound_node_name, requires_node_affinity}
use aitrigram.EngineAdapters.{or_default_type}

pub data GpuError : Type 0 where
  node_failed nodes_failed : ApiError → GpuError
  node_without_gpu node_with_too_few node_not_selected : GpuError
  no_gpu_nodes none_suitable : GpuError

-- The storage's node, of the first repository whose storage is bound to one.
unfoldable pub required_node_name : List ModelRepository → String
required_node_name [] = ""
required_node_name (r ∷ rs) =
    let rest = required_node_name rs in
    if requires_node_affinity r
    then (if is_blank (get_bound_node_name r) then rest else get_bound_node_name r)
    else rest

unfoldable pub gpu_count_or_one : GpuConfig → ℕ
gpu_count_or_one gpu = if nat_eq gpu.count 0 then 1 else gpu.count

or_zero : Option ℕ → ℕ
or_zero none = 0
or_zero (some n) = n

unfoldable pub available_gpus : GpuConfig → Node → ℕ
unfolding or_zero or_default_type
available_gpus gpu node = or_zero (lookup (or_default_type gpu.type) node.allocatable)

-- node.Labels[key], which is empty for a label that is absent
label_or_blank : Option String → String
label_or_blank none = ""
label_or_blank (some v) = v

has_label : Node → String × String → Bool
unfolding label_or_blank
has_label node (k, v) = label_or_blank (lookup k node.labels) == v

unfoldable pub matches_selector : GpuConfig → Node → Bool
unfolding has_label
matches_selector gpu node = all (has_label node) gpu.node_selector

check_node : GpuConfig → Node → Result GpuError (Unit {0})
check_node gpu node =
    if nat_eq (available_gpus gpu node) 0
    then err node_without_gpu
    else if ltb (available_gpus gpu node) (gpu_count_or_one gpu)
    then err node_with_too_few
    else if matches_selector gpu node
    then ok tt
    else err node_not_selected

checked_node : GpuConfig → Reply Node → Result GpuError (Unit {0})
checked_node gpu (err e) = err (node_failed e)
checked_node gpu (ok node) = check_node gpu node

gpu_nodes : GpuConfig → List Node → List String
gpu_nodes gpu [] = []
gpu_nodes gpu (node ∷ nodes) =
    let rest = gpu_nodes gpu nodes in
    if nat_eq (available_gpus gpu node) 0 then rest else node.name ∷ rest

suitable_nodes : GpuConfig → List Node → List String
suitable_nodes gpu [] = []
suitable_nodes gpu (node ∷ nodes) =
    let rest = suitable_nodes gpu nodes in
    if nat_eq (available_gpus gpu node) 0
    then rest
    else if not (matches_selector gpu node)
    then rest
    else if ltb (available_gpus gpu node) (gpu_count_or_one gpu)
    then rest
    else node.name ∷ rest

checked_nodes : GpuConfig → Reply (List Node) → Result GpuError (Unit {0})
checked_nodes gpu (err e) = err (nodes_failed e)
checked_nodes gpu (ok nodes) =
    if is_empty (gpu_nodes gpu nodes)
    then err no_gpu_nodes
    else if is_empty (suitable_nodes gpu nodes)
    then err none_suitable
    else ok tt

check_one : GpuConfig → String → M (Result GpuError (Unit {0}))
check_one gpu required = do
  node ← ask (get_node required) (λ env h. env.node h)
  pure (checked_node gpu node)

check_all : GpuConfig → M (Result GpuError (Unit {0}))
check_all gpu = do nodes ← ask list_nodes (λ env h. env.nodes h); pure (checked_nodes gpu nodes)

validate_config : String → Option GpuConfig → M (Result GpuError (Unit {0}))
validate_config required none = pure (ok tt)
validate_config required (some gpu) =
    if not gpu.enabled
    then pure (ok tt)
    else if is_blank required
    then check_all gpu
    else check_one gpu required

unfoldable pub validate_gpu_availability :
    LlmEngine → (required : String) → M (Result GpuError (Unit {0}))
unfolding validate_config check_all check_one checked_nodes checked_node check_node gpu_nodes
    suitable_nodes
validate_gpu_availability engine required = validate_config required engine.spec.gpu
