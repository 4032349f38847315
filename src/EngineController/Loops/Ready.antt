-- ===== src/EngineController/Loops/Ready.antt =====
-- How many deployments are ready.
use aitrigram.Base.{
  ℕ, ◌+◌, ◌≤◌, ◌<◌, ◌≡◌, refl, ap, ◌∙◌, List, [], ◌∷◌, length, All, ◌⊎◌, inl, inr, arith, ltb,
  Bool-cases,
}
use aitrigram.Base.Results.{ok, err}
use aitrigram.Api.Repository.{ModelRepository}
use aitrigram.Api.Engine.{LlmEngine}
use aitrigram.Names.Truncated.{deployment_name}
use aitrigram.Cluster.{Reply, M, get_deployment, Env, History, pure, ask, ◌>>=◌}
use aitrigram.Cluster.Workloads.{Deployment}
use aitrigram.Library.{Library}
use aitrigram.EngineController.Loops.{
  LoopEnd, done, troubled, panicked, Storages, ready_count, deploy, then_count, deploy_all,
}

-- The deployment under the name "engine-model" was read during the run and has a ready replica.
abbrev pub HasReady : Env → LlmEngine → ModelRepository → Type 0
HasReady env engine r =
    (h : History) × (d : Deployment) × (env.deployment
        (get_deployment engine.namespace (deployment_name engine.name r.name) ∷ h)
      ≡ ok d)
    × (0 < d.ready_replicas)

ready_count-one :
    (reply : Reply Deployment)
    → (ready_count reply ≡ 0)
      ⊎ ((ready_count reply ≡ 1) × (d : Deployment) × (reply ≡ ok d) × (0 < d.ready_replicas))
unfolding ready_count
ready_count-one (err e) = inl refl
ready_count-one (ok d) = elim (Bool-cases (ltb 0 d.ready_replicas)) [
  | inl up ↦ inr (rw up refl, d, refl, ground arith)
  | inr down ↦ inl (rw down refl)
]

done-injective : (m n : ℕ) → done m ≡ done n → m ≡ n
done-injective m n h = cc

module _ (lib : Library) (engine : LlmEngine) (storages : Storages) (env : Env) where
  -- The history below the read of a repository's deployment.
  abbrev read_of : ModelRepository → History → History
  read_of r h = get_deployment engine.namespace (deployment_name engine.name r.name) ∷ h

  counted :
      (r : ModelRepository) (go : ℕ → M (LoopEnd ℕ)) (total n : ℕ) (result : LoopEnd (Unit {0}))
      (h : History)
      → (then_count lib engine r go total result env h).0 ≡ done n
      → (go (total + ready_count (env.deployment (read_of r h))) env (read_of r h)).0 ≡ done n
  unfolding then_count ◌>>=◌ pure ask
  counted r go total n (troubled t) h e = cc
  counted r go total n panicked h e = cc
  counted r go total n (done u) h e = e

  deploy_all-bound :
      (rs : List ModelRepository) (total n : ℕ) (h : History)
      → (deploy_all lib engine storages rs total env h).0 ≡ done n
      → n ≤ total + length rs
  unfolding deploy_all ◌>>=◌ pure
  deploy_all-bound [] total n h e = omega (arith, done-injective _ _ e)
  deploy_all-bound (r ∷ rs) total n h e =
      let (result, h') = deploy lib engine storages r env h in
      let count = ready_count (env.deployment (read_of r h')) in
      let from_there = counted r (deploy_all lib engine storages rs) total n result h' e in
      let rest : n ≤ total + count + length rs =
        deploy_all-bound rs (total + count) n (read_of r h') from_there in
      elim (ready_count-one (env.deployment (read_of r h'))) [
        | inl zero_count ↦ omega (arith, rest, zero_count)
        | inr (one, _, _, _) ↦ omega (arith, rest, one)
      ]

  deploy_all-ready :
      (rs : List ModelRepository) (total : ℕ) (h : History)
      → (deploy_all lib engine storages rs total env h).0 ≡ done (total + length rs)
      → All (HasReady env engine) rs
  unfolding deploy_all ◌>>=◌ pure
  deploy_all-ready [] total h e = tt
  deploy_all-ready (r ∷ rs) total h e =
      let (result, h') = deploy lib engine storages r env h in
      let rest = counted r (deploy_all lib engine storages rs) total _ result h' e in
      elim (ready_count-one (env.deployment (read_of r h'))) [
        | inl zero_count ↦
            let bound = deploy_all-bound rs _ _ _ rest in absurd (omega (arith, bound, zero_count))
        | inr (one, d, read, up) ↦
            let same : total + length (r ∷ rs) ≡ total + 1 + length rs = omega arith in
            ((h', d, read, up), deploy_all-ready rs (total + 1) _ ((rw one at rest) ∙ ap done same))
      ]

  -- Where the loop over the repositories comes to its end, it counts fewer deployments than there
  -- are repositories, or as many; and as many only if for each of them the deployment
  -- "engine-model" was read and had a ready replica.
  pub deploy_all-counts :
      (rs : List ModelRepository) (n : ℕ) (h : History)
      → (deploy_all lib engine storages rs 0 env h).0 ≡ done n
      → (n < length rs) ⊎ ((n ≡ length rs) × All (HasReady env engine) rs)
  deploy_all-counts rs n h e = elim (Bool-cases (ltb n (length rs))) [
    | inl fewer ↦ inl (ground arith)
    | inr enough ↦
        let bound = deploy_all-bound rs 0 n h e in
        let same : n ≡ length rs = ground (arith, bound) in
        let sum : n ≡ 0 + length rs = omega (arith, same) in
        inr (same, deploy_all-ready rs 0 h (e ∙ ap done sum))
  ]
