-- ===== src/EngineController/References.antt =====
-- Which engines refer to which repositories: `updateReferencedEngines` and
-- `modelRepositoryToLLMEngine`.
pub mod Names
pub mod Requests
pub mod Records
use aitrigram.Base.{
  String, List, [], ◌∷◌, Bool, true, false, ◌&&◌, not, any, if◌then◌else◌, ◌==◌, concat, before,
}
use aitrigram.Base.Results.{Result, ok, err}
use aitrigram.Api.Repository.{ModelRepository, ModelRepositoryStatus}
use aitrigram.Api.Engine.{ModelReference, LlmEngine}
use aitrigram.Cluster.{
  is_not_found, Reply, M, pure, ask, ◌>>=◌, list_engines, get_repository, update_repository_status,
}
use aitrigram.Library.{Library}
use aitrigram.RepositoryController.Deletion.{refers_to}

unfoldable pub engine_key : LlmEngine → String
engine_key engine = concat engine.namespace (concat "/" engine.name)

-- A set of names is kept as its sorted list.
insert_name : String → List String → List String
insert_name s [] = s ∷ []
insert_name s (t ∷ ts) =
    let rest = insert_name s ts in
    if s == t then t ∷ ts else if before s t then s ∷ t ∷ ts else t ∷ rest

-- The sorted keys of the engines that refer to the repository and are not being deleted.
unfoldable pub referencing_engines : String → List LlmEngine → List String
unfolding insert_name
referencing_engines repo [] = []
referencing_engines repo (e ∷ es) =
    let rest = referencing_engines repo es in
    if not e.deleting && refers_to repo e then insert_name (engine_key e) rest else rest

-- strings.Join(names, ",")
join_names : List String → String
join_names [] = ""
join_names (s ∷ []) = s
join_names (s ∷ t ∷ ts) = concat s (concat "," (join_names (t ∷ ts)))

unfoldable pub referenced_engines : String → List LlmEngine → String
unfolding join_names
referenced_engines repo engines = join_names (referencing_engines repo engines)

pub with_references : String → ModelRepository → ModelRepository
with_references text repo = record repo {
  status = record repo.status { referenced_engines = text };
}

write_references : String → Reply ModelRepository → M (Reply (Unit {0}))
unfolding with_references
write_references text (err e) = if is_not_found e then pure (ok tt) else pure (err e)
write_references text (ok repo) =
    if repo.status.referenced_engines == text
    then pure (ok tt)
    else ask (update_repository_status (with_references text repo)) (λ env h. env.written h)

unfoldable pub references_attempt : (repo text : String) → M (Reply (Unit {0}))
unfolding write_references
references_attempt repo text = do
  fresh ← ask (get_repository repo) (λ env h. env.repository h)
  write_references text fresh

module _ (lib : Library) where
  -- An error is logged and dropped.
  update_each : List LlmEngine → (repos : List String) → M (Unit {0})
  update_each engines [] = pure tt
  update_each engines (repo ∷ repos) = do
    _ ← lib.retry_on_conflict (references_attempt repo (referenced_engines repo engines))
    update_each engines repos

  with_listed : (repos : List String) → Reply (List LlmEngine) → M (Unit {0})
  with_listed repos (err e) = pure tt
  with_listed repos (ok engines) = update_each engines repos

  unfoldable pub update_referenced_engines : (repos : List String) → M (Unit {0})
  unfolding with_listed update_each
  update_referenced_engines repos = do
    engines ← ask list_engines (λ env h. env.engines h)
    with_listed repos engines

-- A request names an engine by its namespace and its name.
unfoldable pub requests_of : String → List LlmEngine → List (String × String)
requests_of repo [] = []
requests_of repo (e ∷ es) =
    let rest = requests_of repo es in
    if refers_to repo e then (e.namespace, e.name) ∷ rest else rest

listed_requests : String → Reply (List LlmEngine) → List (String × String)
listed_requests repo (err e) = []
listed_requests repo (ok engines) = requests_of repo engines

unfoldable pub model_repository_to_llm_engine : ModelRepository → M (List (String × String))
unfolding listed_requests
model_repository_to_llm_engine repo = do
  engines ← ask list_engines (λ env h. env.engines h)
  pure (listed_requests repo.name engines)
