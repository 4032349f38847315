-- ===== src/EngineController/Status/Sync.antt =====
-- What a change of an engine's status reads and writes.
use aitrigram.Base.{◌≡◌, refl, ◌∷◌, true, ◌⊎◌, inl, inr, Bool-cases}
use aitrigram.Base.Results.{ok, err, Result-cases}
use aitrigram.Api.Engine.{LlmEngine, LlmEngineStatus}
use aitrigram.Cluster.{
  ApiError, Call, Reply, get_engine, update_engine_status, Env, History, pure, ask, ◌>>=◌,
}
use aitrigram.Cluster.Issues.{Adds, none_added, one_added, Adds-trans, Issues, issues_rules}
use aitrigram.Library.{Library, RetriesOnConflict, Attempts, last, again}
use aitrigram.EngineController.Status.{Mutation, write_if_changed, sync_attempt, sync_status}

-- A read of the engine, or a write of a status with the property.
abbrev pub IsSync : LlmEngine → (LlmEngineStatus → Type 0) → Call → Type 0
IsSync engine V (get_engine namespace name) = (namespace ≡ engine.namespace) × (name ≡ engine.name)
IsSync engine V (update_engine_status e) = V e.status
IsSync engine V _ = ⊥

-- The history of a synchronization ends with a read of the engine that was answered by an error, or
-- with one that was answered by an engine: after it a status with the property was written to that
-- engine, unless it had such a status already.
abbrev pub IsSynced : Library → Env → LlmEngine → (LlmEngineStatus → Type 0) → History → Type 0
IsSynced lib env engine V h =
    (k : History) × (((e : ApiError) × (env.engine (get_engine engine.namespace engine.name ∷ k)
          ≡ err e)
        × (h ≡ get_engine engine.namespace engine.name ∷ k))
      ⊎ ((fresh : LlmEngine) × (s : LlmEngineStatus) × V s
          × (env.engine (get_engine engine.namespace engine.name ∷ k) ≡ ok fresh)
          × (((lib.deep_equal_engine fresh.status s ≡ true)
                × (h ≡ get_engine engine.namespace engine.name ∷ k))
              ⊎ (h
                  ≡ update_engine_status (record fresh { status = s })
                    ∷ get_engine engine.namespace engine.name
                    ∷ k))))

module _ (lib : Library) (engine : LlmEngine) (mutate : Mutation) (V : LlmEngineStatus → Type 0)
    (holds : (s : LlmEngineStatus) → V (mutate s)) where
  write-IsSync :
      (e : LlmEngine)
      → IsSync engine V (update_engine_status (record e { status = mutate e.status }))
  write-IsSync e = holds e.status

  read-IsSync : IsSync engine V (get_engine engine.namespace engine.name)
  read-IsSync = (refl, refl)

  write_if_changed-IsSync :
      (reply : Reply LlmEngine) → Issues (IsSync engine V) (write_if_changed lib mutate reply)
  unfolding write_if_changed
  write_if_changed-IsSync (ok e) = search (issues_rules, write-IsSync)
  write_if_changed-IsSync (err x) = search issues_rules

  Attempts-IsSync :
      (env : Env) (h : History) {out : Reply (Unit {0}) × History}
      → Attempts (sync_attempt lib engine mutate) env h out
      → Adds (IsSync engine V) (get_engine engine.namespace engine.name ∷ h) out.1
  unfolding sync_attempt ◌>>=◌ ask
  Attempts-IsSync env h (last _) =
      let read = get_engine engine.namespace engine.name ∷ h in
      (write_if_changed-IsSync (env.engine read)).at env read
  Attempts-IsSync env h (again _ e rest) =
      let read = get_engine engine.namespace engine.name ∷ h in
      let first = (write_if_changed-IsSync (env.engine read)).at env read in
      Adds-trans first
        (Adds-trans (one_added _ read-IsSync none_added) (Attempts-IsSync env _ rest))

  Attempts-IsSynced :
      (env : Env) (h : History) {out : Reply (Unit {0}) × History}
      → Attempts (sync_attempt lib engine mutate) env h out
      → IsSynced lib env engine V out.1
  unfolding sync_attempt write_if_changed ◌>>=◌ pure ask
  Attempts-IsSynced env h (again _ e rest) = Attempts-IsSynced env _ rest
  Attempts-IsSynced env h (last _) =
      let read = get_engine engine.namespace engine.name ∷ h in
      elim (Result-cases (env.engine read)) [
        | inr (e, gone) ↦ rw gone (h, inl (e, gone, refl))
        | inl (fresh, there) ↦
            let s = mutate fresh.status in
            let v = holds fresh.status in
            elim (Bool-cases (lib.deep_equal_engine fresh.status s)) [
              | inl same ↦ rw (there, same) (h, inr (fresh, s, v, there, inl (same, refl)))
              | inr changed ↦ rw (there, changed) (h, inr (fresh, s, v, there, inr refl))
            ]
      ]

  module _ (retries : RetriesOnConflict lib) (env : Env) (h : History) where
    pub sync_status-IsSync :
        Adds
          (IsSync engine V)
          (get_engine engine.namespace engine.name ∷ h)
          (sync_status lib engine mutate env h).1
    unfolding sync_status
    sync_status-IsSync = Attempts-IsSync env h (retries (sync_attempt lib engine mutate) env h)

    pub sync_status-IsSynced : IsSynced lib env engine V (sync_status lib engine mutate env h).1
    unfolding sync_status
    sync_status-IsSynced = Attempts-IsSynced env h (retries (sync_attempt lib engine mutate) env h)
