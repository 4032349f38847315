-- ===== src/EngineController/Gpu/Suitable.antt =====
-- Which nodes a GPU configuration is content with.
use aitrigram.Base.{
  String, ◌≡◌, ◌↔◌, ◌⊎◌, refl, sym, ◌∙◌, List, [], ◌∷◌, Bool, true, false, ◌&&◌, not, some, any,
  arith, leb, is_blank, is_empty, inl, inr, Bool-cases,
}
use aitrigram.Base.Results.{ok, Result-cases, ok-ne-err}
use aitrigram.Api.Engine.{GpuConfig, LlmEngine}
use aitrigram.Cluster.{get_node, list_nodes, Env, History, pure, ask, ◌>>=◌}
use aitrigram.Cluster.Workloads.{Node}
use aitrigram.EngineController.Gpu.{
  available_gpus, gpu_count_or_one, matches_selector, check_node, checked_node, gpu_nodes,
  suitable_nodes, checked_nodes, validate_config, check_one, check_all, validate_gpu_availability,
}

-- A node with the requested number of GPUs, at least one, and with the labels of the configuration.
abbrev pub is_suitable : GpuConfig → Node → Bool
is_suitable gpu node =
    leb (gpu_count_or_one gpu) (available_gpus gpu node) && matches_selector gpu node

check_node_lem :
    (gpu : GpuConfig) (node : Node) → (check_node gpu node ≡ ok tt) ↔ (is_suitable gpu node ≡ true)
unfolding check_node gpu_count_or_one
check_node_lem gpu node = ground arith

suitable_nodes-eq-nil :
    (gpu : GpuConfig) (nodes : List Node)
    → is_empty (suitable_nodes gpu nodes) ≡ not (any (is_suitable gpu) nodes)
unfolding suitable_nodes gpu_count_or_one
suitable_nodes-eq-nil gpu [] = refl
suitable_nodes-eq-nil gpu (node ∷ nodes) = ground (arith, suitable_nodes-eq-nil gpu nodes)

gpu_nodes-of-suitable :
    (gpu : GpuConfig) (nodes : List Node)
    → any (is_suitable gpu) nodes ≡ true
    → is_empty (gpu_nodes gpu nodes) ≡ false
unfolding gpu_nodes gpu_count_or_one
gpu_nodes-of-suitable gpu [] h = cc
gpu_nodes-of-suitable gpu (node ∷ nodes) h = ground (arith, gpu_nodes-of-suitable gpu nodes)

checked_nodes_lem :
    (gpu : GpuConfig) (nodes : List Node)
    → (checked_nodes gpu (ok nodes) ≡ ok tt) ↔ (any (is_suitable gpu) nodes ≡ true)
unfolding checked_nodes
checked_nodes_lem gpu nodes =
    ground (arith, suitable_nodes-eq-nil gpu nodes, gpu_nodes-of-suitable gpu nodes)

-- The node that is required, or some node of the cluster where none is, is there and suitable.
abbrev pub HasSuitable : GpuConfig → String → Env → History → Type 0
HasSuitable gpu required env h =
    ((is_blank required ≡ true)
      × (nodes : List Node) × (env.nodes (list_nodes ∷ h) ≡ ok nodes)
      × (any (is_suitable gpu) nodes ≡ true))
    ⊎ ((is_blank required ≡ false)
        × (node : Node) × (env.node (get_node required ∷ h) ≡ ok node)
        × (is_suitable gpu node ≡ true))

check_all_lem :
    (gpu : GpuConfig) (env : Env) (h : History)
    → ((check_all gpu env h).0 ≡ ok tt) ↔ (
        (nodes : List Node) × (env.nodes (list_nodes ∷ h) ≡ ok nodes)
        × (any (is_suitable gpu) nodes ≡ true))
unfolding check_all checked_nodes ◌>>=◌ pure ask
check_all_lem gpu env h = elim (Result-cases (env.nodes (list_nodes ∷ h))) [
  | inl (nodes, listed) ↦ (
    λ valid. (nodes, listed, (checked_nodes_lem gpu nodes).0 (rw listed at valid)),
    λ (others, listed', found). rw listed' ((checked_nodes_lem gpu others).1 found),
  )
  | inr (e, unlisted) ↦ (
    λ valid. absurd (ok-ne-err (sym (rw unlisted at valid))),
    λ (others, listed', found). absurd (ok-ne-err (sym listed' ∙ unlisted)),
  )
]

check_one_lem :
    (gpu : GpuConfig) (required : String) (env : Env) (h : History)
    → ((check_one gpu required env h).0 ≡ ok tt) ↔ (
        (node : Node) × (env.node (get_node required ∷ h) ≡ ok node)
        × (is_suitable gpu node ≡ true))
unfolding check_one checked_node ◌>>=◌ pure ask
check_one_lem gpu required env h = elim (Result-cases (env.node (get_node required ∷ h))) [
  | inl (node, read) ↦ (
    λ valid. (node, read, (check_node_lem gpu node).0 (rw read at valid)),
    λ (other, read', found). rw read' ((check_node_lem gpu other).1 found),
  )
  | inr (e, unread) ↦ (
    λ valid. absurd (ok-ne-err (sym (rw unread at valid))),
    λ (other, read', found). absurd (ok-ne-err (sym read' ∙ unread)),
  )
]

-- Where an engine asks for GPUs, the validation succeeds exactly if there is a suitable node: the
-- node that is required, or any node of the cluster where none is required, can be read, has the
-- requested number of GPUs of the type, and has the labels of the configuration's selector.
pub validate_gpu_availability_lem :
    (engine : LlmEngine) (gpu : GpuConfig) (required : String) (env : Env) (h : History)
    → engine.spec.gpu ≡ some gpu
    → gpu.enabled ≡ true
    → ((validate_gpu_availability engine required env h).0 ≡ ok tt) ↔ HasSuitable gpu required env h
unfolding validate_gpu_availability validate_config available_gpus matches_selector gpu_count_or_one
validate_gpu_availability_lem engine gpu required env h asked on =
    elim (Bool-cases (is_blank required)) [
      | inl blank ↦
          let (to, from) = check_all_lem gpu env h in
          (
            λ valid.
                let (nodes, listed, found) = to (rw (asked, on, blank) at valid) in
                inl (blank, nodes, listed, found),
            λ found. elim found [
              | inl (_, nodes, listed, fits) ↦ rw (asked, on, blank) (from (nodes, listed, fits))
              | inr (named, _, _, _) ↦ cc
            ],
          )
      | inr named ↦
          let (to, from) = check_one_lem gpu required env h in
          (
            λ valid.
                let (node, read, found) = to (rw (asked, on, named) at valid) in
                inr (named, node, read, found),
            λ found. elim found [
              | inl (blank, _, _, _) ↦ cc
              | inr (_, node, read, fits) ↦ rw (asked, on, named) (from (node, read, fits))
            ],
          )
    ]
