-- ===== src/EngineStorage/Sweep.antt =====
-- How `CleanupLLMEngineStorage` starts and comes to its end.
use aitrigram.Base.{
  String, ◌≡◌, refl, ◌∷◌, Bytes, none, some, ◌⊎◌, inl, inr, Option-cases, Bool-cases,
}
use aitrigram.Base.Results.{Result, ok, err, Result-cases}
use aitrigram.Api.Engine.{LlmEngine}
use aitrigram.Names.Truncated.{llm_engine_pvc_name}
use aitrigram.Cluster.{
  ApiError, is_not_found, Reply, get_claim, get_volume, Env, History, pure, ask, ◌>>=◌,
}
use aitrigram.Cluster.Objects.{PersistentVolumeClaim}
use aitrigram.Cluster.Issues.{Adds}
use aitrigram.Library.{Library}
use aitrigram.EngineStorage.{
  EngineStorageError, delete_failed, update_failed, panics, gone, released_volume, release_volume,
  cleanup_volume, deleted_claim, released_claim, release_claim, cleanup_named,
  cleanup_llm_engine_storage,
}
use aitrigram.EngineStorage.Cleanup.{IsCleanup, cleanup_llm_engine_storage-reads}

-- Success, a failed deletion or a failed update; not a panic.
abbrev pub IsReturned : Result EngineStorageError (Unit {0}) → Type 0
IsReturned c =
    (c ≡ ok tt) ⊎ ((e : ApiError) × ((c ≡ err (delete_failed e)) ⊎ (c ≡ err (update_failed e))))

module _ (lib : Library) (engine : LlmEngine) where
  gone-IsReturned : (reply : Reply (Unit {0})) → IsReturned (gone lib engine reply)
  unfolding gone
  gone-IsReturned (ok u) = inl refl
  gone-IsReturned (err e) = elim (Bool-cases (is_not_found e)) [
    | inl missing ↦ inl (rw missing refl)
    | inr another ↦ inr (e, inl (rw another refl))
  ]

  module _ (env : Env) where
    released_volume-IsReturned :
        (name : Bytes) (reply : Reply (Unit {0})) (h : History)
        → IsReturned (released_volume lib engine name reply env h).0
    unfolding released_volume ◌>>=◌ pure ask
    released_volume-IsReturned name (err e) h = inr (e, inr refl)
    released_volume-IsReturned name (ok u) h = gone-IsReturned _

    cleanup_volume-IsReturned :
        (name : Bytes) (h : History) → IsReturned (cleanup_volume lib engine name env h).0
    unfolding cleanup_volume release_volume ◌>>=◌ pure ask
    cleanup_volume-IsReturned name h =
        elim (Result-cases (env.engine_volume (get_volume name ∷ h))) [
          | inl (v, e) ↦ rw e (released_volume-IsReturned name _ _)
          | inr (x, e) ↦ rw e (inl refl)
        ]

    deleted_claim-IsReturned :
        (name : Bytes) (cleaned : Result EngineStorageError (Unit {0})) (h : History)
        → IsReturned cleaned
        → IsReturned (deleted_claim lib engine name cleaned env h).0
    unfolding deleted_claim pure
    deleted_claim-IsReturned name (ok u) h came_back = cleanup_volume-IsReturned name h
    deleted_claim-IsReturned name (err e) h came_back = came_back

    released_claim-IsReturned :
        (name : Bytes) (reply : Reply (Unit {0})) (h : History)
        → IsReturned (released_claim lib engine name reply env h).0
    unfolding released_claim ◌>>=◌ pure ask
    released_claim-IsReturned name (err e) h = inr (e, inr refl)
    released_claim-IsReturned name (ok u) h = deleted_claim-IsReturned name _ _ (gone-IsReturned _)

    release_claim-IsReturned :
        (name : Bytes) (reply : Reply PersistentVolumeClaim) (h : History)
        → IsReturned (release_claim lib engine name reply env h).0
    unfolding release_claim ◌>>=◌ ask
    release_claim-IsReturned name (err e) h = cleanup_volume-IsReturned name h
    release_claim-IsReturned name (ok c) h = released_claim-IsReturned name _ _

  -- The name panics and nothing is called, or the claim is read first, calls of the cleanup follow,
  -- and the cleanup comes back.
  pub cleanup_llm_engine_storage-sweeps :
      (repo : String) (env : Env) (h : History)
      → let run = cleanup_llm_engine_storage lib engine repo env h in
        ((llm_engine_pvc_name engine.name repo ≡ none) × (run.0 ≡ err panics) × (run.1 ≡ h))
        ⊎ ((name : Bytes) × (llm_engine_pvc_name engine.name repo ≡ some name)
            × IsReturned run.0
            × Adds (IsCleanup lib engine repo) (get_claim engine.namespace name ∷ h) run.1)
  unfolding cleanup_llm_engine_storage cleanup_named ◌>>=◌ pure ask
  cleanup_llm_engine_storage-sweeps repo env h =
      elim (Option-cases (llm_engine_pvc_name engine.name repo)) [
        | inl unnamed ↦ inl (unnamed, rw unnamed refl, rw unnamed refl)
        | inr (name, named) ↦
            let read = get_claim engine.namespace name ∷ h in
            let reply = env.claim read in
            inr (
              name,
              named,
              rw named (release_claim-IsReturned env name reply read),
              cleanup_llm_engine_storage-reads lib engine repo name env h named,
            )
      ]
