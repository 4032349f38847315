-- ===== src/EngineController/Status.antt =====
-- The status of an engine and how it is written: `syncStatus`, `setNotReady`,
-- `deriveLLMEnginePhase`.
pub mod Phases
pub mod Writes
pub mod Sync
use aitrigram.Base.{
  ℕ, String, List, [], ◌∷◌, Bool, true, false, ◌||◌, Option, none, some, if◌then◌else◌, ◌==◌,
}
use aitrigram.Base.Results.{Result, ok, err}
use aitrigram.Api.{ConditionStatus, condition_true, condition_false, Condition, is_true}
use aitrigram.Api.Engine.{
  LlmEngine, LlmEngineStatus, condition_ready, condition_models_available,
  reason_deployments_created, reason_storage_pending, reason_waiting_for_models,
  reason_no_models_found, reason_gpu_not_available,
}
use aitrigram.Cluster.{Reply, M, pure, ask, ◌>>=◌, get_engine, update_engine_status}
use aitrigram.Library.{Library}

-- The phase of an engine whose Ready condition is not true, by the condition's reason.
unfoldable pub phase_of_reason : String → String
phase_of_reason reason =
    if reason == reason_deployments_created
    then "Starting"
    else if reason == reason_storage_pending
        || reason == reason_waiting_for_models
        || reason == reason_no_models_found
        || reason == reason_gpu_not_available
    then "Pending"
    else "Error"

phase_of : Option Condition → String
phase_of none = "Pending"
phase_of (some c) = if is_true c.status then "Running" else phase_of_reason c.reason

unfoldable pub derive_llm_engine_phase : Library → List Condition → String
unfolding phase_of
derive_llm_engine_phase lib conditions =
    phase_of (lib.find_status_condition conditions condition_ready)

abbrev pub Mutation : Type 0
Mutation = LlmEngineStatus → LlmEngineStatus

set_all : Library → List Condition → List Condition → List Condition
set_all lib [] conditions = conditions
set_all lib (c ∷ cs) conditions = set_all lib cs (lib.set_status_condition conditions c)

-- Sets conditions one after the other and derives the phase from them.
unfoldable pub with_conditions : Library → List Condition → Mutation
unfolding set_all
with_conditions lib cs s =
    let conditions = set_all lib cs s.conditions in
    record s { conditions = conditions; phase = derive_llm_engine_phase lib conditions }

write_if_changed : Library → Mutation → Reply LlmEngine → M (Reply (Unit {0}))
write_if_changed lib mutate (err e) = pure (err e)
write_if_changed lib mutate (ok fresh) =
    if lib.deep_equal_engine fresh.status (mutate fresh.status)
    then pure (ok tt)
    else ask (update_engine_status (record fresh { status = mutate fresh.status }))
        (λ env h. env.written h)

unfoldable pub sync_attempt : Library → LlmEngine → Mutation → M (Reply (Unit {0}))
unfolding write_if_changed
sync_attempt lib engine mutate = do
  fresh ← ask (get_engine engine.namespace engine.name) (λ env h. env.engine h)
  write_if_changed lib mutate fresh

unfoldable pub sync_status : Library → LlmEngine → Mutation → M (Reply (Unit {0}))
sync_status lib engine mutate = lib.retry_on_conflict (sync_attempt lib engine mutate)

abbrev pub condition : String → ConditionStatus → String → String → Condition
condition type status reason message = record {
  type = type;
  status = status;
  reason = reason;
  message = message;
}

abbrev pub not_ready : String → String → Condition
not_ready reason message = condition condition_ready condition_false reason message

-- An error is logged and dropped.
unfoldable pub set_not_ready : Library → LlmEngine → String → String → M (Unit {0})
set_not_ready lib engine reason message = do
  _ ← sync_status lib engine (with_conditions lib (not_ready reason message ∷ []))
  pure tt
