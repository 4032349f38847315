-- ===== src/EngineController/Status/Writes.antt =====
-- What writing an engine's status may do to the cluster.
use aitrigram.Base.{String}
use aitrigram.Base.Results.{ok, err}
use aitrigram.Api.Engine.{LlmEngine}
use aitrigram.Cluster.{
  Call, get_repository, get_engine, update_engine, update_engine_status, get_node, list_nodes,
  Reply,
}
use aitrigram.Cluster.Issues.{Issues, issues_rules}
use aitrigram.Library.{Library, RetriesOnConflict, Issues-retry}
use aitrigram.EngineController.Status.{
  Mutation, write_if_changed, sync_attempt, sync_status, set_not_ready,
}

-- Reads of engines, repositories and nodes, and writes of engines; nothing that an engine runs on.
abbrev pub IsWaiting : Call → Type 0
IsWaiting (get_repository _) = Unit
IsWaiting (get_engine _ _) = Unit
IsWaiting (update_engine _) = Unit
IsWaiting (update_engine_status _) = Unit
IsWaiting (get_node _) = Unit
IsWaiting list_nodes = Unit
IsWaiting _ = ⊥

write_if_changed-Issues :
    (lib : Library) (mutate : Mutation) (fresh : Reply LlmEngine)
    → Issues IsWaiting (write_if_changed lib mutate fresh)
unfolding write_if_changed
write_if_changed-Issues lib mutate (err e) = search issues_rules
write_if_changed-Issues lib mutate (ok fresh) = search (issues_rules, tt)

sync_attempt-Issues :
    (lib : Library) (engine : LlmEngine) (mutate : Mutation)
    → Issues IsWaiting (sync_attempt lib engine mutate)
unfolding sync_attempt
sync_attempt-Issues lib engine mutate = search (issues_rules, write_if_changed-Issues, tt)

pub sync_status-Issues :
    (lib : Library) (engine : LlmEngine) (mutate : Mutation)
    → RetriesOnConflict lib
    → Issues IsWaiting (sync_status lib engine mutate)
unfolding sync_status
sync_status-Issues lib engine mutate retries =
    Issues-retry lib (sync_attempt lib engine mutate) retries
      (sync_attempt-Issues lib engine mutate)

pub set_not_ready-Issues :
    (lib : Library) (engine : LlmEngine) (reason message : String)
    → RetriesOnConflict lib
    → Issues IsWaiting (set_not_ready lib engine reason message)
unfolding set_not_ready
set_not_ready-Issues lib engine reason message retries = search (issues_rules, sync_status-Issues)
