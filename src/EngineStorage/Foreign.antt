-- ===== src/EngineStorage/Foreign.antt =====
-- Whose volume the removal of an engine's storage deletes.
use aitrigram.Base.{String, ◌≡◌, refl, ◌∷◌, some, Bytes}
use aitrigram.Base.Results.{ok, err}
use aitrigram.Api.Engine.{LlmEngine}
use aitrigram.Names.Truncated.{llm_engine_pvc_name}
use aitrigram.Cluster.{
  ApiError, Env, History, pure, ask, ◌>>=◌, get_claim, get_volume, update_volume, delete_volume,
}
use aitrigram.Cluster.Workloads.{EngineVolume}
use aitrigram.Library.{Library}
use aitrigram.EngineStorage.{
  llm_engine_storage_finalizer, release_volume, released_volume, cleanup_volume, release_claim,
  cleanup_named, cleanup_llm_engine_storage,
}

abbrev pub without_protection : Library → EngineVolume → EngineVolume
without_protection lib v = record v {
  finalizers = lib.remove_finalizer v.finalizers llm_engine_storage_finalizer;
}

module _ (lib : Library) (engine : LlmEngine) (repo : String) (env : Env) (h : History) where
  -- Where the engine's claim for the repository has a name but cannot be read, and a volume of
  -- the name is there and can be written, the volume is updated and deleted, whatever claim in
  -- whatever namespace it is for.
  pub cleanup_llm_engine_storage-foreign :
      (name : Bytes) (v : EngineVolume) (e : ApiError)
      → let asked = get_claim engine.namespace name ∷ h in
        let read = get_volume name ∷ asked in
        llm_engine_pvc_name engine.name repo ≡ some name
        → env.claim asked ≡ err e
        → env.engine_volume read ≡ ok v
        → env.written (update_volume (without_protection lib v) ∷ read) ≡ ok tt
        → (cleanup_llm_engine_storage lib engine repo env h).1
          ≡ delete_volume name ∷ update_volume (without_protection lib v) ∷ read
  unfolding cleanup_llm_engine_storage cleanup_named release_claim cleanup_volume release_volume
      released_volume ◌>>=◌ pure ask
  cleanup_llm_engine_storage-foreign name v e named no_claim there written =
      rw (named, no_claim, there, written) refl
