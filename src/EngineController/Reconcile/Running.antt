-- ===== src/EngineController/Reconcile/Running.antt =====
-- The phase that the status of an engine has once its workloads were applied.
use aitrigram.Base.{
  ℕ, ◌<◌, ◌⊎◌, All, map, true, false, arith, String, ◌≡◌, refl, ◌∙◌, List, [], ◌∷◌, length, nat_eq,
  if◌then◌else◌, inl, inr, Bool-cases,
}
use aitrigram.Api.{is_true}
use aitrigram.Api.Repository.{ModelRepository}
use aitrigram.Api.Engine.{LlmEngine, LlmEngineStatus, condition_ready}
use aitrigram.Library.{Library, SetsConditions}
use aitrigram.EngineController.Status.{phase_of_reason, with_conditions}
use aitrigram.EngineController.Status.Phases.{with_conditions-phase}
use aitrigram.EngineController.Loops.{Trouble}
use aitrigram.EngineController.Loops.Ready.{HasReady}
use aitrigram.Cluster.{Env}
use aitrigram.EngineController.Reconcile.{repository_name, models_ready, readiness, with_readiness}

-- The status names the repositories, and is of phase Running where for each of them a deployment was
-- read with a ready replica, and of phase Starting where fewer were counted.
abbrev pub IsVerdict : Env → LlmEngine → List ModelRepository → ℕ → LlmEngineStatus → Type 0
IsVerdict env engine repos total s =
    (s.model_repositories ≡ map repository_name repos)
    × (((s.phase ≡ "Running") × All (HasReady env engine) repos)
        ⊎ ((s.phase ≡ "Starting") × (total < length repos)))

module _ (lib : Library) (text : Trouble → String) where
  readiness_lem :
      (total all_deployments : ℕ)
      → ((readiness lib text total all_deployments).type ≡ condition_ready)
        × ((if is_true (readiness lib text total all_deployments).status
              then "Running"
              else phase_of_reason (readiness lib text total all_deployments).reason)
            ≡ (if nat_eq total all_deployments then "Running" else "Starting"))
  unfolding readiness phase_of_reason
  readiness_lem total all_deployments = elim (Bool-cases (nat_eq total all_deployments)) [
    | inl all_up ↦ (rw all_up refl, rw all_up refl)
    | inr some_down ↦ (rw some_down refl, rw some_down refl)
  ]

  -- If a condition that was set is found again: the phase is Running where as many deployments are
  -- ready as there are repositories, and Starting elsewhere.
  with_readiness-phase :
      (sets : SetsConditions lib) (repos : List ModelRepository) (total : ℕ) (s : LlmEngineStatus)
      → (with_readiness lib text repos total s).phase
        ≡ (if nat_eq total (length repos) then "Running" else "Starting")
  unfolding with_readiness
  with_readiness-phase sets repos total s =
      let (type, phase) = readiness_lem total (length repos) in
      with_conditions-phase lib sets (models_ready lib text ∷ [])
        (readiness lib text total (length repos)) _ type
      ∙ phase

  with_readiness-repositories :
      (repos : List ModelRepository) (total : ℕ) (s : LlmEngineStatus)
      → (with_readiness lib text repos total s).model_repositories ≡ map repository_name repos
  unfolding with_readiness with_conditions
  with_readiness-repositories repos total s = refl

  module _ (sets : SetsConditions lib) (env : Env) (engine : LlmEngine)
      (repos : List ModelRepository) where
    pub with_readiness-IsVerdict :
        (total : ℕ)
        → (total < length repos) ⊎ ((total ≡ length repos) × All (HasReady env engine) repos)
        → (s : LlmEngineStatus)
        → IsVerdict env engine repos total (with_readiness lib text repos total s)
    with_readiness-IsVerdict total (inl fewer) s =
        let phase = with_readiness-phase sets repos total s in
        let down : nat_eq total (length repos) ≡ false = ground (arith, fewer) in
        (with_readiness-repositories repos total s, inr (phase ∙ rw down refl, fewer))
    with_readiness-IsVerdict total (inr (same, all_ready)) s =
        let phase = with_readiness-phase sets repos total s in
        let up : nat_eq total (length repos) ≡ true = ground (arith, same) in
        (with_readiness-repositories repos total s, inl (phase ∙ rw up refl, all_ready))
