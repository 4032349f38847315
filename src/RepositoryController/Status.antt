-- ===== src/RepositoryController/Status.antt =====
-- The status of a ModelRepository and how it is written: `syncStatus`, `setCondition`,
-- `deriveModelRepoPhase`, `findRevisionStatus`, `updateRevisionStatus`.
pub mod Phases
pub mod Writes
use aitrigram.Base.{
  ℕ, String, List, [], ◌∷◌, Bool, true, false, Option, none, some, if◌then◌else◌, ◌==◌,
}
use aitrigram.Base.Results.{Result, ok, err}
use aitrigram.Api.{ConditionStatus, Condition, is_true}
use aitrigram.Api.Repository.{
  DownloadPhase, pending, downloading, ready, failed, RevisionStatus, ModelRepository,
  ModelRepositoryStatus, condition_ready, reason_downloading,
}
use aitrigram.Cluster.{Reply, M, pure, ask, ◌>>=◌, get_repository, update_repository_status}
use aitrigram.Library.{Library}

phase_of : Condition → DownloadPhase
phase_of c =
    if is_true c.status
    then ready
    else if c.reason == reason_downloading
    then downloading
    else failed

phase_or_pending : Option Condition → DownloadPhase
phase_or_pending none = pending
phase_or_pending (some c) = phase_of c

unfoldable pub derive_model_repo_phase : Library → List Condition → DownloadPhase
unfolding phase_or_pending phase_of
derive_model_repo_phase lib conditions =
    phase_or_pending (lib.find_status_condition conditions condition_ready)

abbrev pub Mutation : Type 0
Mutation = ModelRepositoryStatus → ModelRepositoryStatus

-- The mutation of `setCondition`.
unfoldable pub with_condition : Library → Condition → Mutation
with_condition lib c s =
    let conditions = lib.set_status_condition s.conditions c in
    record s { conditions = conditions; phase = derive_model_repo_phase lib conditions }

unfoldable pub find_revision : String → List RevisionStatus → Option RevisionStatus
find_revision name [] = none
find_revision name (r ∷ rs) = if r.name == name then some r else find_revision name rs

unfoldable pub put_revision : RevisionStatus → List RevisionStatus → List RevisionStatus
put_revision new [] = new ∷ []
put_revision new (r ∷ rs) = if r.name == new.name then new ∷ rs else r ∷ put_revision new rs

-- The mutation of `updateRevisionStatus`.
unfoldable pub with_revision : RevisionStatus → Mutation
with_revision new s = record s { available_revisions = put_revision new s.available_revisions }

unfoldable pub find_revision_status : ModelRepository → String → Option RevisionStatus
find_revision_status repo name = find_revision name repo.status.available_revisions

-- A status that did not change is not written.
write_if_changed : Library → Mutation → Reply ModelRepository → M (Reply (Unit {0}))
write_if_changed lib mutate (err e) = pure (err e)
write_if_changed lib mutate (ok fresh) =
    if lib.deep_equal fresh.status (mutate fresh.status)
    then pure (ok tt)
    else ask (update_repository_status (record fresh { status = mutate fresh.status }))
        (λ env h. env.written h)

-- One attempt: fetch a fresh copy, change it, write it.
unfoldable pub sync_attempt : Library → ModelRepository → Mutation → M (Reply (Unit {0}))
unfolding write_if_changed
sync_attempt lib repo mutate = do
  fresh ← ask (get_repository repo.name) (λ env h. env.repository h)
  write_if_changed lib mutate fresh

unfoldable pub sync_status : Library → ModelRepository → Mutation → M (Reply (Unit {0}))
sync_status lib repo mutate = lib.retry_on_conflict (sync_attempt lib repo mutate)

abbrev pub condition : String → ConditionStatus → String → String → Condition
condition type status reason message = record {
  type = type;
  status = status;
  reason = reason;
  message = message;
}

-- An error is logged and dropped.
unfoldable pub set_condition :
    Library → ModelRepository → String → ConditionStatus → String → String → M (Unit {0})
set_condition lib repo type status reason message = do
  _ ← sync_status lib repo (with_condition lib (condition type status reason message))
  pure tt

unfoldable pub update_revision_status :
    Library → ModelRepository → RevisionStatus → M (Reply (Unit {0}))
update_revision_status lib repo new = sync_status lib repo (with_revision new)
