-- ===== src/EngineController/Reconcile/Announced.antt =====
-- What a reconciliation does once the workloads of its engine were applied.
use aitrigram.Base.{
  ℕ, ap, Bool, none, ◌<◌, ◌⊎◌, All, map, true, false, String, ◌≡◌, refl, ◌∙◌, List, [], ◌∷◌, length,
  if◌then◌else◌, inl, inr, Bool-cases,
}
use aitrigram.Api.Repository.{ModelRepository}
use aitrigram.Api.Engine.{LlmEngine}
use aitrigram.Library.{Library, SetsConditions, RetriesOnConflict}
use aitrigram.EngineController.Loops.{
  Trouble, LoopEnd, done, Storages, fetch_model_repositories, first_waiting, ensure_storages,
  deploy_all,
}
use aitrigram.EngineController.Status.Sync.{
  IsSync, IsSynced, sync_status-IsSync, sync_status-IsSynced,
}
use aitrigram.EngineController.References.{update_referenced_engines}
use aitrigram.EngineController.References.Records.{Updates, update_referenced_engines-Updates}
use aitrigram.EngineController.Loops.Ready.{HasReady, deploy_all-counts}
use aitrigram.Cluster.{Env, History, M, Reply, get_engine, pure, ask, ◌>>=◌, ◌>>◌}
use aitrigram.Cluster.Issues.{Adds}
use aitrigram.Base.Results.{Result, ok}
use aitrigram.EngineController.Gpu.{GpuError, required_node_name, validate_gpu_availability}
use aitrigram.EngineController.Deletion.{llm_engine_finalizer}
use aitrigram.RepositoryController.Revisions.{finished}
use aitrigram.EngineController.Reconcile.{
  repository_name, with_readiness, Ended, is_gpu_enabled, after_deployments, after_storages,
  after_gpu, check_gpu, unless_waiting, with_repositories, prepare_engine, ensure_finalizer,
  with_engine, reconcile,
}
use aitrigram.EngineController.Reconcile.Running.{IsVerdict, with_readiness-IsVerdict}

-- After a history the repositories are updated, and then the engine's status is synchronized with a
-- verdict.
abbrev pub Announces :
    Library → Env → LlmEngine → List ModelRepository → (total : ℕ) → History → History → Type 0
Announces lib env engine repos total h h'' =
    (h' : History) × Updates env (map repository_name repos) h h'
    × Adds (IsSync engine (IsVerdict env engine repos total))
        (get_engine engine.namespace engine.name ∷ h') h''
    × IsSynced lib env engine (IsVerdict env engine repos total) h''

-- The check for a GPU, which is left out where none is asked for.
abbrev pub gpu_checked : LlmEngine → List ModelRepository → M (Result GpuError (Unit {0}))
gpu_checked engine repos =
    if is_gpu_enabled engine.spec.gpu
    then validate_gpu_availability engine (required_node_name repos)
    else pure (ok tt)

run_else :
    (b : Bool) (m n : M Ended) (env : Env) (h : History)
    → b ≡ false
    → (if b then m else n) env h ≡ n env h
run_else b m n env h e = rw e refl

run_then :
    (b : Bool) (m n : M Ended) (env : Env) (h : History)
    → b ≡ true
    → (if b then m else n) env h ≡ m env h
run_then b m n env h e = rw e refl

module _ (lib : Library) (text : Trouble → String) where
  module _ (sets : SetsConditions lib) (env : Env) (engine : LlmEngine)
      (repos : List ModelRepository) where
    module _ (retries : RetriesOnConflict lib) (h : History) (total : ℕ) where
      after_deployments-Announces :
          (counts : (total < length repos)
            ⊎ ((total ≡ length repos) × All (HasReady env engine) repos))
          → let run = after_deployments lib text engine repos (done total) env h in
            (run.0 ≡ ok finished) × Announces lib env engine repos total h run.1
      unfolding after_deployments ◌>>=◌ ◌>>◌ pure
      after_deployments-Announces counts =
          let holds = with_readiness-IsVerdict lib text sets env engine repos total counts in
          let h' = (update_referenced_engines lib (map repository_name repos) env h).1 in
          let verdict = IsVerdict env engine repos total in
          let mutate = with_readiness lib text repos total in
          (
            refl,
            (
              h',
              update_referenced_engines-Updates lib retries env (map repository_name repos) h,
              sync_status-IsSync lib engine mutate verdict holds retries env h',
              sync_status-IsSynced lib engine mutate verdict holds retries env h',
            ),
          )

  check_gpu-passes :
      (engine : LlmEngine) (repos : List ModelRepository) (env : Env) (h h' : History)
      → gpu_checked engine repos env h ≡ (ok tt, h')
      → check_gpu lib text engine repos env h ≡ after_gpu lib text engine repos (ok tt) env h'
  unfolding check_gpu ◌>>=◌ pure
  check_gpu-passes engine repos env h h' passed =
      elim (Bool-cases (is_gpu_enabled engine.spec.gpu)) [
        | inl asked ↦ let checked = rw asked at passed in rw (asked, checked) refl
        | inr unasked ↦
            let same =
              ap (λ (r : Result GpuError (Unit {0}) × History). r.1) (rw unasked at passed) in
            rw unasked (ap (after_gpu lib text engine repos (ok tt) env) same)
      ]

  with_engine-prepares :
      (engine : LlmEngine) (env : Env) (h : History)
      → engine.deleting ≡ false
      → lib.contains_finalizer engine.finalizers llm_engine_finalizer ≡ true
      → with_engine lib text (ok engine) env h ≡ prepare_engine lib text engine env h
  unfolding with_engine ensure_finalizer
  with_engine-prepares engine env h alive kept =
      run_else engine.deleting _ _ env h alive
      ∙ run_then (lib.contains_finalizer engine.finalizers llm_engine_finalizer) _ _ env h kept

  prepare_engine-Announces :
      (sets : SetsConditions lib) (retries : RetriesOnConflict lib) (env : Env) (engine : LlmEngine)
      (r : ModelRepository) (rs : List ModelRepository) (storages : Storages) (total : ℕ)
      (h h1 h2 h3 h4 : History)
      → fetch_model_repositories engine.spec.model_refs env h ≡ (ok (r ∷ rs), h1)
      → first_waiting (r ∷ rs) ≡ none
      → gpu_checked engine (r ∷ rs) env h1 ≡ (ok tt, h2)
      → ensure_storages lib engine (r ∷ rs) [] env h2 ≡ (done storages, h3)
      → deploy_all lib engine storages (r ∷ rs) 0 env h3 ≡ (done total, h4)
      → let run = prepare_engine lib text engine env h in
        (run.0 ≡ ok finished) × Announces lib env engine (r ∷ rs) total h4 run.1
  unfolding prepare_engine with_repositories unless_waiting after_gpu after_storages ◌>>=◌
  prepare_engine-Announces sets retries env engine r rs storages total h h1 h2 h3 h4 fetched ready
        gpu ensured deployed =
      let repos = r ∷ rs in
      let ended = ap (λ (x : LoopEnd ℕ × History). x.0) deployed in
      let counts = deploy_all-counts lib engine storages env repos total h3 ended in
      let passes = check_gpu-passes engine repos env h1 h2 gpu in
      rw (fetched, ready, passes, ensured, deployed)
        (after_deployments-Announces sets env engine repos retries h4 total counts)

  -- If RetryOnConflict does nothing but repeat its action after conflicts, and a condition that was
  -- set is found again: where an engine is read that is not being deleted and has the finalizer, its
  -- repositories are fetched, one at least, and none of them waits, the check for a GPU passes if one
  -- is asked for, the storages are ensured and the loop over the deployments comes to its end, the
  -- reconciliation finishes without an error. After that loop it records the references to the
  -- repositories and then synchronizes the engine's status, and nothing else: it reads the engine,
  -- and every status that it writes names the repositories, and is Running, with a deployment for
  -- each repository that was read with a ready replica, or Starting, with fewer counted than there
  -- are repositories. Unless the last read of the engine was answered by an error, the status that
  -- was read there equals such a one for DeepEqual, or such a one is written last.
  pub reconcile-Announces :
      (sets : SetsConditions lib) (retries : RetriesOnConflict lib) (env : Env)
      (namespace name : String) (engine : LlmEngine) (r : ModelRepository)
      (rs : List ModelRepository) (storages : Storages) (total : ℕ) (h h1 h2 h3 h4 : History)
      → env.engine (get_engine namespace name ∷ h) ≡ ok engine
      → engine.deleting ≡ false
      → lib.contains_finalizer engine.finalizers llm_engine_finalizer ≡ true
      → fetch_model_repositories engine.spec.model_refs env (get_engine namespace name ∷ h)
        ≡ (ok (r ∷ rs), h1)
      → first_waiting (r ∷ rs) ≡ none
      → gpu_checked engine (r ∷ rs) env h1 ≡ (ok tt, h2)
      → ensure_storages lib engine (r ∷ rs) [] env h2 ≡ (done storages, h3)
      → deploy_all lib engine storages (r ∷ rs) 0 env h3 ≡ (done total, h4)
      → let run = reconcile lib text namespace name env h in
        (run.0 ≡ ok finished) × Announces lib env engine (r ∷ rs) total h4 run.1
  unfolding reconcile ◌>>=◌ ask
  reconcile-Announces sets retries env namespace name engine r rs storages total h h1 h2 h3 h4 found
        alive kept fetched ready gpu ensured deployed =
      let read = get_engine namespace name ∷ h in
      let repos = r ∷ rs in
      let run =
        ap (λ (reply : Reply LlmEngine). with_engine lib text reply env read) found
        ∙ with_engine-prepares engine env read alive kept in
      let announces =
        prepare_engine-Announces sets retries env engine r rs storages total read h1 h2 h3 h4
          fetched ready gpu ensured deployed in
      rw run announces
