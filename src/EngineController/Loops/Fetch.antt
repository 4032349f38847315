-- ===== src/EngineController/Loops/Fetch.antt =====
-- Reading the repositories of an engine, where one of them is not ready.
use aitrigram.Base.{
  String, ◌≡◌, refl, List, [], ◌∷◌, true, false, some, ◌⊎◌, inl, inr, any, ◌==◌, eq_iff, Bool-cases,
}
use aitrigram.Base.Results.{Result, ok, err, Result-cases}
use aitrigram.Api.Repository.{ModelRepository, is_ready}
use aitrigram.Api.Engine.{ModelReference}
use aitrigram.Cluster.{get_repository, Env, History, M, pure, ask, ◌>>=◌}
use aitrigram.Cluster.Issues.{Issues, Issues-bind, Issues-ask, issues_rules}
use aitrigram.EngineController.Status.Writes.{IsWaiting}
use aitrigram.EngineController.Loops.{
  Trouble, not_fetched, consed, then_rest, fetched_one, fetch_model_repositories, first_waiting,
}

then_rest-Issues :
    (m : M (Result Trouble (List ModelRepository))) (r : Result Trouble ModelRepository)
    → Issues IsWaiting m
    → Issues IsWaiting (then_rest m r)
unfolding then_rest
then_rest-Issues m (err e) im = search issues_rules
then_rest-Issues m (ok r) im = search (issues_rules, im)

pub fetch-Issues : (refs : List ModelReference) → Issues IsWaiting (fetch_model_repositories refs)
unfolding fetch_model_repositories
fetch-Issues [] = search issues_rules
fetch-Issues (ref ∷ refs) =
    Issues-bind _ _ (Issues-ask (get_repository ref.name) (λ env h. env.repository h) tt) λ reply.
      then_rest-Issues (fetch_model_repositories refs) (fetched_one ref.name reply)
        (fetch-Issues refs)

-- Some repository could not be read, or is not ready.
abbrev pub IsBlocked : Result Trouble (List ModelRepository) → Type 0
IsBlocked x =
    ((t : Trouble) × (x ≡ err t))
    ⊎ ((repos : List ModelRepository) × (r : ModelRepository) × (x ≡ ok repos)
        × (first_waiting repos ≡ some r))

-- Whenever it is read, the repository of that name is not ready.
abbrev pub NeverReady : Env → String → Type 0
NeverReady env repo =
    (h : History) (r : ModelRepository)
    → env.repository (get_repository repo ∷ h) ≡ ok r
    → is_ready r.status.phase ≡ false

module _ (env : Env) where
  abbrev pub fetched_at : List ModelReference → History → Result Trouble (List ModelRepository)
  fetched_at refs h = (fetch_model_repositories refs env h).0

  -- What a read repository adds to a blocked rest, and a repository that waits to any rest.
  then_rest-IsBlocked :
      (r : ModelRepository) (refs : List ModelReference) (h : History)
      → (is_ready r.status.phase ≡ false) ⊎ IsBlocked (fetched_at refs h)
      → IsBlocked (then_rest (fetch_model_repositories refs) (ok r) env h).0
  unfolding then_rest consed first_waiting ◌>>=◌ pure
  then_rest-IsBlocked r refs h (inl waits) = elim (Result-cases (fetched_at refs h)) [
    | inl (rs, e) ↦ inr (r ∷ rs, r, rw e refl, rw waits refl)
    | inr (t, e) ↦ inl (t, rw e refl)
  ]
  then_rest-IsBlocked r refs h (inr (inl (t, e))) = inl (t, rw e refl)
  then_rest-IsBlocked r refs h (inr (inr (rs, w, e, first))) =
      elim (Bool-cases (is_ready r.status.phase)) [
        | inl up ↦ inr (r ∷ rs, w, rw e refl, rw up first)
        | inr waits ↦ inr (r ∷ rs, r, rw e refl, rw waits refl)
      ]

  -- If an engine refers to a repository that is never ready, its repositories come out blocked.
  pub fetch-IsBlocked :
      (bad : String) (refs : List ModelReference) (h : History)
      → NeverReady env bad
      → any (λ (ref : ModelReference). ref.name == bad) refs ≡ true
      → IsBlocked (fetched_at refs h)
  unfolding fetch_model_repositories fetched_one then_rest ◌>>=◌ ask pure
  fetch-IsBlocked bad [] h never refers = cc
  fetch-IsBlocked bad (ref ∷ refs) h never refers =
      elim (Result-cases (env.repository (get_repository ref.name ∷ h))) [
        | inr (e, unread) ↦ inl (not_fetched ref.name e, rw unread refl)
        | inl (r, read) ↦
            let next = get_repository ref.name ∷ h in
            rw read (
              then_rest-IsBlocked r refs next (elim (Bool-cases (ref.name == bad)) [
                | inl same ↦
                    let (to, from) = eq_iff ref.name bad in inl (never h r (rw (to same) at read))
                | inr other ↦ inr (fetch-IsBlocked bad refs next never (rw other at refers))
              ]))
      ]
