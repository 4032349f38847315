-- ===== src/RepositoryController/Deletion/Guard.antt =====
-- A repository that an engine refers to is left alone.
use aitrigram.Base.{
  String, ◌≡◌, refl, sym, ◌∙◌, List, [], ◌∷◌, true, Option, any, inl, inr, Bool-cases,
}
use aitrigram.Base.Results.{ok, err, Result-cases, ok-ne-err}
use aitrigram.Api.Repository.{ModelRepository}
use aitrigram.Api.Engine.{LlmEngine}
use aitrigram.Cluster.{ApiError, list_engines, Env, History, pure, ask, ◌>>=◌, ◌>>◌}
use aitrigram.Cluster.Issues.{Adds, Issues, issues_rules}
use aitrigram.Library.{Library, RetriesOnConflict}
use aitrigram.Provider.{StorageClassProvider}
use aitrigram.RepositoryController.Status.Writes.{IsStatusCall, set_condition-Issues}
use aitrigram.RepositoryController.Revisions.{api, deletion_blocked}
use aitrigram.RepositoryController.Deletion.{refers_to, dependent_engines, block, handle_deletion}

-- Some engine refers to the repository.
abbrev pub IsReferenced : String → List LlmEngine → Type 0
IsReferenced repo engines = any (refers_to repo) engines ≡ true

dependent_engines-of-IsReferenced :
    (repo : String) (engines : List LlmEngine)
    → IsReferenced repo engines
    → (e : String) × (es : List String) × (dependent_engines repo engines ≡ e ∷ es)
unfolding dependent_engines
dependent_engines-of-IsReferenced repo [] h = cc
dependent_engines-of-IsReferenced repo (e ∷ es) h = elim (Bool-cases (refers_to repo e)) [
  | inl refers ↦ (e.name, dependent_engines repo es, rw refers)
  | inr not_it ↦
      let (d, ds, same) = dependent_engines-of-IsReferenced repo es (rw not_it at h) in
      (d, ds, rw not_it same)
]

block-Issues :
    (lib : Library) (namespace : String) (repo : ModelRepository) (engines : List String)
    → RetriesOnConflict lib
    → Issues IsStatusCall (block lib namespace repo engines)
unfolding block
block-Issues lib namespace repo engines retries = search (issues_rules, set_condition-Issues)

module _ (lib : Library) (namespace : String) (repo : ModelRepository)
    (provider : Option StorageClassProvider) (env : Env) (h : History) where
  blocked_result :
      (engines : List LlmEngine)
      → env.engines (list_engines ∷ h) ≡ ok engines
      → IsReferenced repo.name engines
      → (handle_deletion lib namespace repo provider env h).0
        ≡ err (deletion_blocked (dependent_engines repo.name engines))
  unfolding handle_deletion ◌>>=◌ ◌>>◌ pure ask
  blocked_result engines listed referenced =
      let (e, es, dependents) = dependent_engines-of-IsReferenced repo.name engines referenced in
      rw (listed, dependents) refl

  blocked_calls :
      (engines : List LlmEngine)
      → RetriesOnConflict lib
      → env.engines (list_engines ∷ h) ≡ ok engines
      → IsReferenced repo.name engines
      → Adds IsStatusCall (list_engines ∷ h) (handle_deletion lib namespace repo provider env h).1
  unfolding handle_deletion ◌>>=◌ ◌>>◌ pure ask
  blocked_calls engines retries listed referenced =
      let (e, es, dependents) = dependent_engines-of-IsReferenced repo.name engines referenced in
      rw (listed, dependents)
        ((block-Issues lib namespace repo (e ∷ es) retries).at env (list_engines ∷ h))

  -- If RetryOnConflict does nothing but repeat its action after conflicts: where the engines of the
  -- cluster are listed and one of them refers to the repository, the deletion is blocked. It ends
  -- in an error that names those engines, and after the listing no call but reads of repositories
  -- and status updates is made.
  pub handle_deletion_blocked :
      (engines : List LlmEngine)
      → RetriesOnConflict lib
      → env.engines (list_engines ∷ h) ≡ ok engines
      → IsReferenced repo.name engines
      → ((handle_deletion lib namespace repo provider env h).0
          ≡ err (deletion_blocked (dependent_engines repo.name engines)))
        × Adds IsStatusCall (list_engines ∷ h) (handle_deletion lib namespace repo provider env h).1
  handle_deletion_blocked engines retries listed referenced =
      (blocked_result engines listed referenced, blocked_calls engines retries listed referenced)

  unlisted_result :
      (e : ApiError)
      → env.engines (list_engines ∷ h) ≡ err e
      → (handle_deletion lib namespace repo provider env h).0 ≡ err (api e)
  unfolding handle_deletion ◌>>=◌ ◌>>◌ pure ask
  unlisted_result e failed = rw failed

  -- A deletion succeeds only if the engines could be listed and none of them refers to the
  -- repository.
  pub handle_deletion_succeeds :
      (handle_deletion lib namespace repo provider env h).0 ≡ ok tt
      → (engines : List LlmEngine) × (env.engines (list_engines ∷ h) ≡ ok engines)
        × ¬ IsReferenced repo.name engines
  handle_deletion_succeeds done = elim (Result-cases (env.engines (list_engines ∷ h))) [
    | inr (e, failed) ↦ absurd (ok-ne-err (sym done ∙ unlisted_result e failed))
    | inl (engines, listed) ↦
        (engines, listed, λ r. ok-ne-err (sym done ∙ blocked_result engines listed r))
  ]
