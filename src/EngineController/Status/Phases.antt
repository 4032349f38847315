-- ===== src/EngineController/Status/Phases.antt =====
-- The phase that a change of an engine's conditions leaves.
use aitrigram.Base.{◌≡◌, refl, sym, ap, ◌∙◌, List, [], ◌∷◌, ◌++◌, if◌then◌else◌}
use aitrigram.Api.{Condition, is_true}
use aitrigram.Api.Engine.{LlmEngineStatus, condition_ready}
use aitrigram.Library.{Library, SetsConditions}
use aitrigram.EngineController.Status.{
  phase_of_reason, derive_llm_engine_phase, set_all, with_conditions,
}

set_all-append :
    (lib : Library) (cs ds conditions : List Condition)
    → set_all lib (cs ++ ds) conditions ≡ set_all lib ds (set_all lib cs conditions)
unfolding set_all
set_all-append lib [] ds conditions = refl
set_all-append lib (c ∷ cs) ds conditions = set_all-append lib cs ds _

-- If a condition that was set is found again: after a change whose last condition is of type Ready,
-- the engine's phase is Running where that condition is true, and follows from its reason elsewhere,
-- whatever the conditions were before.
pub with_conditions-phase :
    (lib : Library) (sets : SetsConditions lib) (cs : List Condition) (c : Condition)
    (s : LlmEngineStatus)
    → c.type ≡ condition_ready
    → (with_conditions lib (cs ++ (c ∷ [])) s).phase
      ≡ (if is_true c.status then "Running" else phase_of_reason c.reason)
unfolding with_conditions derive_llm_engine_phase set_all
with_conditions-phase lib sets cs c s e =
    let before = set_all lib cs s.conditions in
    let found =
      ap (lib.find_status_condition (lib.set_status_condition before c)) (sym e)
      ∙ sets.find_set_same before c in
    rw (set_all-append lib cs (c ∷ []) s.conditions, found) refl
