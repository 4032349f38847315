-- ===== src/EngineController/Reconcile/Gate.antt =====
-- What must hold before an engine gets storage or a workload.
use aitrigram.Base.{
  String, ◌≡◌, ap, ◌∙◌, List, [], ◌∷◌, true, false, Option, none, some, inl, inr, Bool-cases,
}
use aitrigram.Base.Results.{Result, ok, err, Result-cases, ok-injective}
use aitrigram.Api.Repository.{ModelRepository}
use aitrigram.Api.Engine.{LlmEngine}
use aitrigram.Cluster.{get_engine, update_engine, Env, History, pure, ask, ◌>>=◌}
use aitrigram.Cluster.Issues.{
  Adds, Adds-trans, Adds-else, none_added, one_added, Issues, issues_rules,
}
use aitrigram.Library.{Library, RetriesOnConflict}
use aitrigram.RepositoryController.Deletion.{refers_to}
use aitrigram.EngineController.Deletion.{llm_engine_finalizer}
use aitrigram.EngineController.Status.Writes.{IsWaiting, set_not_ready-Issues, sync_status-Issues}
use aitrigram.EngineController.Loops.{Trouble, fetch_model_repositories, first_waiting}
use aitrigram.EngineController.Loops.Fetch.{fetch-Issues, IsBlocked, NeverReady, fetch-IsBlocked}
use aitrigram.EngineController.Reconcile.{
  with_finalizer, delete_engine, fail_with, unless_waiting, with_repositories, prepare_engine,
  finalizer_added, ensure_finalizer, with_engine, reconcile,
}

module _ (lib : Library) (text : Trouble → String) (retries : RetriesOnConflict lib) where
  unless_waiting-Issues :
      (engine : LlmEngine) (repos : List ModelRepository) (w : ModelRepository)
      (first : Option ModelRepository)
      → first ≡ some w
      → Issues IsWaiting (unless_waiting lib text engine repos first)
  unfolding unless_waiting
  unless_waiting-Issues engine repos w none e = cc
  unless_waiting-Issues engine repos w (some r) e = search (issues_rules, sync_status-Issues)

  with_repositories-Issues :
      (engine : LlmEngine) (x : Result Trouble (List ModelRepository))
      → IsBlocked x
      → Issues IsWaiting (with_repositories lib text engine x)
  unfolding with_repositories fail_with unless_waiting
  with_repositories-Issues engine (err t) b = search (issues_rules, set_not_ready-Issues)
  with_repositories-Issues engine (ok []) b = search (issues_rules, set_not_ready-Issues)
  with_repositories-Issues engine (ok (r ∷ rs)) (inl (t, e)) = cc
  with_repositories-Issues engine (ok (r ∷ rs)) (inr (repos, w, e, first)) =
      unless_waiting-Issues engine (r ∷ rs) w _ (ap first_waiting (ok-injective _ _ e) ∙ first)

  module _ (env : Env) (bad : String) (never : NeverReady env bad) where
    prepare_waits :
        (engine : LlmEngine) (h : History)
        → refers_to bad engine ≡ true
        → Adds IsWaiting h (prepare_engine lib text engine env h).1
    unfolding prepare_engine ◌>>=◌ refers_to
    prepare_waits engine h refers =
        let refs = engine.spec.model_refs in
        let (repos, h') = fetch_model_repositories refs env h in
        Adds-trans ((fetch-Issues refs).at env h) (
          (with_repositories-Issues engine repos (fetch-IsBlocked env bad refs h never refers)).at
            env h')

    ensure_waits :
        (engine : LlmEngine) (h : History)
        → refers_to bad engine ≡ true
        → Adds IsWaiting h (ensure_finalizer lib text engine env h).1
    unfolding ensure_finalizer finalizer_added ◌>>=◌ ask pure with_finalizer refers_to
    ensure_waits engine h refers =
        elim (Bool-cases (lib.contains_finalizer engine.finalizers llm_engine_finalizer)) [
          | inl there ↦ rw there (prepare_waits engine h refers)
          | inr missing ↦
              let call = update_engine (with_finalizer lib engine) in
              elim (Result-cases (env.written (call ∷ h))) [
                | inl (u, e) ↦
                    rw (missing, e)
                      (Adds-trans (one_added call tt none_added)
                        (prepare_waits (with_finalizer lib engine) (call ∷ h) refers))
                | inr (e, unwritten) ↦ rw (missing, unwritten) (one_added call tt none_added)
              ]
        ]

    -- If RetryOnConflict does nothing but repeat its action after conflicts: while some repository
    -- that an engine refers to is not ready whenever it is read, the reconciliation of that engine,
    -- unless it is being deleted, makes only calls that read engines, repositories or nodes and that
    -- write the engine. It creates no volume and no claim, and applies no manifest.
    pub reconcile_waits :
        (namespace name : String) (engine : LlmEngine) (h : History)
        → env.engine (get_engine namespace name ∷ h) ≡ ok engine
        → engine.deleting ≡ false
        → refers_to bad engine ≡ true
        → Adds IsWaiting h (reconcile lib text namespace name env h).1
    unfolding reconcile with_engine ◌>>=◌ ask
    reconcile_waits namespace name engine h read alive refers =
        Adds-trans (one_added (get_engine namespace name) tt none_added) (
          rw read (
            Adds-else engine.deleting (delete_engine lib text engine)
              (ensure_finalizer lib text engine) env (get_engine namespace name ∷ h) alive
              (ensure_waits engine (get_engine namespace name ∷ h) refers)))
