-- ===== src/EngineStorage/Cleanup.antt =====
-- What removing the storage of an engine may do.
use aitrigram.Base.{String, ◌≡◌, refl, ◌∷◌, Option, none, some, Bytes}
use aitrigram.Base.Results.{Result, ok, err}
use aitrigram.Api.Engine.{LlmEngine}
use aitrigram.Names.Truncated.{llm_engine_pvc_name}
use aitrigram.Cluster.{
  Env, History, ask, ◌>>=◌, Call, Reply, get_volume, update_volume, delete_volume, get_claim,
  update_claim, delete_claim,
}
use aitrigram.Cluster.Issues.{Adds, Issues, issues_rules}
use aitrigram.Cluster.Objects.{PersistentVolumeClaim}
use aitrigram.Cluster.Workloads.{EngineVolume}
use aitrigram.Library.{Library}
use aitrigram.EngineStorage.{
  EngineStorageError, llm_engine_storage_finalizer, released_volume, release_volume, cleanup_volume,
  deleted_claim, released_claim, release_claim, cleanup_named, cleanup_llm_engine_storage,
}

abbrev pub IsNamed : LlmEngine → String → Bytes → Type 0
IsNamed engine repo name = llm_engine_pvc_name engine.name repo ≡ some name

-- Reads and deletions of the engine's own claim and volume for the repository, and updates of a
-- claim or a volume that take the finalizer away and nothing else.
abbrev pub IsCleanup : Library → LlmEngine → (repo : String) → Call → Type 0
IsCleanup lib engine repo (get_claim namespace name) =
    (namespace ≡ engine.namespace) × IsNamed engine repo name
IsCleanup lib engine repo (delete_claim namespace name) =
    (namespace ≡ engine.namespace) × IsNamed engine repo name
IsCleanup lib engine repo (get_volume name) = IsNamed engine repo name
IsCleanup lib engine repo (delete_volume name) = IsNamed engine repo name
IsCleanup lib engine repo (update_claim c) =
    (old : PersistentVolumeClaim) × (c ≡ record old {
      finalizers = lib.remove_finalizer old.finalizers llm_engine_storage_finalizer;
    })
IsCleanup lib engine repo (update_volume v) =
    (old : EngineVolume) × (v ≡ record old {
      finalizers = lib.remove_finalizer old.finalizers llm_engine_storage_finalizer;
    })
IsCleanup lib engine repo _ = ⊥

module _ (lib : Library) (engine : LlmEngine) (repo : String) where
  release_volume-IsCleanup :
      (v : EngineVolume)
      → IsCleanup lib engine repo (
          update_volume (record v {
            finalizers = lib.remove_finalizer v.finalizers llm_engine_storage_finalizer;
          }))
  release_volume-IsCleanup v = (v, refl)

  release_claim-IsCleanup :
      (c : PersistentVolumeClaim)
      → IsCleanup lib engine repo (
          update_claim (record c {
            finalizers = lib.remove_finalizer c.finalizers llm_engine_storage_finalizer;
          }))
  release_claim-IsCleanup c = (c, refl)

  own_claim :
      (name : Bytes)
      → IsNamed engine repo name
      → (engine.namespace ≡ engine.namespace) × IsNamed engine repo name
  own_claim name named = (refl, named)

  module _ (name : Bytes) (named : IsNamed engine repo name) where
    released_volume-Issues :
        (reply : Reply (Unit {0}))
        → Issues (IsCleanup lib engine repo) (released_volume lib engine name reply)
    unfolding released_volume
    released_volume-Issues (ok u) = search (issues_rules, named)
    released_volume-Issues (err e) = search issues_rules

    release_volume-Issues :
        (reply : Reply EngineVolume)
        → Issues (IsCleanup lib engine repo) (release_volume lib engine name reply)
    unfolding release_volume
    release_volume-Issues (ok existing) =
        search (issues_rules, released_volume-Issues, release_volume-IsCleanup existing)
    release_volume-Issues (err e) = search issues_rules

    cleanup_volume-Issues : Issues (IsCleanup lib engine repo) (cleanup_volume lib engine name)
    unfolding cleanup_volume
    cleanup_volume-Issues = search (issues_rules, release_volume-Issues, named)

    deleted_claim-Issues :
        (cleaned : Result EngineStorageError (Unit {0}))
        → Issues (IsCleanup lib engine repo) (deleted_claim lib engine name cleaned)
    unfolding deleted_claim
    deleted_claim-Issues (ok u) = cleanup_volume-Issues
    deleted_claim-Issues (err e) = search issues_rules

    released_claim-Issues :
        (reply : Reply (Unit {0}))
        → Issues (IsCleanup lib engine repo) (released_claim lib engine name reply)
    unfolding released_claim
    released_claim-Issues (ok u) = search (issues_rules, deleted_claim-Issues, own_claim name named)
    released_claim-Issues (err e) = search issues_rules

    release_claim-Issues :
        (reply : Reply PersistentVolumeClaim)
        → Issues (IsCleanup lib engine repo) (release_claim lib engine name reply)
    unfolding release_claim
    release_claim-Issues (ok existing) =
        search (issues_rules, released_claim-Issues, release_claim-IsCleanup existing)
    release_claim-Issues (err e) = cleanup_volume-Issues

  cleanup_named-Issues :
      (found : Option Bytes)
      → llm_engine_pvc_name engine.name repo ≡ found
      → Issues (IsCleanup lib engine repo) (cleanup_named lib engine found)
  unfolding cleanup_named
  cleanup_named-Issues none e = search issues_rules
  cleanup_named-Issues (some name) e =
      search (issues_rules, release_claim-Issues name e, own_claim name e)

  -- The claim is read first.
  pub cleanup_llm_engine_storage-reads :
      (name : Bytes) (env : Env) (h : History)
      → IsNamed engine repo name
      → Adds
          (IsCleanup lib engine repo)
          (get_claim engine.namespace name ∷ h)
          (cleanup_llm_engine_storage lib engine repo env h).1
  unfolding cleanup_llm_engine_storage cleanup_named ◌>>=◌ ask
  cleanup_llm_engine_storage-reads name env h named =
      let read = get_claim engine.namespace name ∷ h in
      rw named ((release_claim-Issues name named (env.claim read)).at env read)

  -- Whatever the cluster answers, removing the storage of an engine reads and deletes only the claim
  -- and the volume under the name for the engine and the repository, the claim in the engine's own
  -- namespace, and updates an object only by taking its finalizer away.
  pub cleanup_llm_engine_storage-Issues :
      Issues (IsCleanup lib engine repo) (cleanup_llm_engine_storage lib engine repo)
  unfolding cleanup_llm_engine_storage
  cleanup_llm_engine_storage-Issues = cleanup_named-Issues _ refl
