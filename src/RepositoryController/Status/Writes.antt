-- ===== src/RepositoryController/Status/Writes.antt =====
-- What writing a status may do to the cluster.
use aitrigram.Base.{String}
use aitrigram.Base.Results.{ok, err}
use aitrigram.Api.{ConditionStatus}
use aitrigram.Api.Repository.{ModelRepository}
use aitrigram.Cluster.{Call, get_repository, update_repository_status, Reply}
use aitrigram.Cluster.Issues.{Issues, issues_rules}
use aitrigram.Library.{Library, RetriesOnConflict, Issues-retry}
use aitrigram.RepositoryController.Status.{
  Mutation, write_if_changed, sync_attempt, sync_status, set_condition,
}

-- Reading a repository, and writing the status of one.
abbrev pub IsStatusCall : Call → Type 0
IsStatusCall (get_repository _) = Unit
IsStatusCall (update_repository_status _) = Unit
IsStatusCall _ = ⊥

write_if_changed-Issues :
    (lib : Library) (mutate : Mutation) (fresh : Reply ModelRepository)
    → Issues IsStatusCall (write_if_changed lib mutate fresh)
unfolding write_if_changed
write_if_changed-Issues lib mutate (err e) = search issues_rules
write_if_changed-Issues lib mutate (ok fresh) = search (issues_rules, tt)

sync_attempt-Issues :
    (lib : Library) (repo : ModelRepository) (mutate : Mutation)
    → Issues IsStatusCall (sync_attempt lib repo mutate)
unfolding sync_attempt
sync_attempt-Issues lib repo mutate = search (issues_rules, write_if_changed-Issues, tt)

pub sync_status-Issues :
    (lib : Library) (repo : ModelRepository) (mutate : Mutation)
    → RetriesOnConflict lib
    → Issues IsStatusCall (sync_status lib repo mutate)
unfolding sync_status
sync_status-Issues lib repo mutate retries =
    Issues-retry lib (sync_attempt lib repo mutate) retries (sync_attempt-Issues lib repo mutate)

pub set_condition-Issues :
    (lib : Library) (repo : ModelRepository) (type : String) (status : ConditionStatus)
    (reason message : String)
    → RetriesOnConflict lib
    → Issues IsStatusCall (set_condition lib repo type status reason message)
unfolding set_condition
set_condition-Issues lib repo type status reason message retries =
    search (issues_rules, sync_status-Issues)
