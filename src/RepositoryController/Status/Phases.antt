-- ===== src/RepositoryController/Status/Phases.antt =====
-- Conditions, phases and revision statuses after a change.
use aitrigram.Base.{
  String, ◌≡◌, refl, sym, ap, ◌∙◌, ◌≢◌, List, [], ◌∷◌, some, arith, if◌then◌else◌, ◌==◌, eq_iff,
}
use aitrigram.Api.{Condition, is_true}
use aitrigram.Api.Repository.{
  downloading, ready, failed, RevisionStatus, ModelRepositoryStatus, condition_ready,
  reason_downloading,
}
use aitrigram.Library.{Library, SetsConditions}
use aitrigram.RepositoryController.Status.{
  derive_model_repo_phase, with_condition, find_revision, put_revision,
}

module _ (lib : Library) (sets : SetsConditions lib) (c : Condition)
    (s : ModelRepositoryStatus) where
  -- If a condition that was set is found again: once a condition of type Ready is set, the phase is
  -- ready where the condition is true, downloading where it is not and the reason is Downloading,
  -- and failed for any other reason.
  pub with_condition-ready :
      c.type ≡ condition_ready
      → (with_condition lib c s).phase ≡ (
          if is_true c.status
          then ready
          else if c.reason == reason_downloading
          then downloading
          else failed)
  unfolding with_condition derive_model_repo_phase
  with_condition-ready e =
      let conditions = lib.set_status_condition s.conditions c in
      let found =
        ap (lib.find_status_condition conditions) (sym e) ∙ sets.find_set_same s.conditions c in
      rw found refl

  -- If setting a condition leaves those of other types: once a condition of another type than Ready
  -- is set, the phase is what the conditions before derive.
  pub with_condition-other :
      c.type ≢ condition_ready
      → (with_condition lib c s).phase ≡ derive_model_repo_phase lib s.conditions
  unfolding with_condition derive_model_repo_phase
  with_condition-other ne = rw (sets.find_set_other s.conditions c condition_ready ne)

-- A revision's status that was put is found under its name, once, and any other is as it was.
pub find_revision-put_revision :
    (name : String) (new : RevisionStatus) (rs : List RevisionStatus)
    → find_revision name (put_revision new rs)
      ≡ (if new.name == name then some new else find_revision name rs)
unfolding find_revision put_revision
find_revision-put_revision name new [] = refl
find_revision-put_revision name new (r ∷ rs) = ground (
  arith,
  eq_iff r.name new.name,
  eq_iff r.name name,
  eq_iff new.name name,
  find_revision-put_revision name new rs,
)
