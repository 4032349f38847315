-- ===== src/EngineWorkload/Reconcile/Plan.antt =====
-- What a component applies is a list of manifests, in order: the first that cannot be built or
-- applied ends the reconciliation.
use aitrigram.Base.{
  String, ◌≡◌, refl, sym, ap, ◌∙◌, List, [], ◌∷◌, ◌++◌, Bool, true, false, Option, none, inl, inr,
}
use aitrigram.Base.Results.{ok, err, Result-cases}
use aitrigram.Cluster.{ApiError, apply, Env, History, M, pure, ask, ◌>>=◌}
use aitrigram.Cluster.Workloads.{Manifest}
use aitrigram.Library.{Library}
use aitrigram.EngineAdapters.Deployments.{EngineContext}
use aitrigram.EngineWorkload.{
  WorkloadError, predicate_failed, apply_failed, Built, Predicate, ManifestAdapter, Component,
}
use aitrigram.EngineWorkload.Reconcile.{
  build_deployment, build_service, build_manifest, applied, wrapped, server_side_apply, asked, next,
  manifest_turn, reconcile_manifests, reconcile_deployment, reconcile_service, then_service,
  then_deployment, update_resources, if_enabled, reconcile,
}

-- A run over a list of manifests, from a history to an end and a later history.
pub data Performed (env : Env)
    : List (Built Manifest) → History → Built (Unit {0}) → History → Type 0 where
  complete : (h : History) → Performed env [] h (ok tt) h
  unbuilt :
      (e : WorkloadError) (ms : List (Built Manifest)) (h : History)
      → Performed env (err e ∷ ms) h (err e) h
  refused :
      (m : Manifest) (ms : List (Built Manifest)) (e : ApiError) (h : History)
      → env.written (apply m ∷ h) ≡ err e
      → Performed env (ok m ∷ ms) h (err (apply_failed e)) (apply m ∷ h)
  written :
      (m : Manifest) (ms : List (Built Manifest)) (h : History) {result : Built (Unit {0})}
      {h' : History}
      → env.written (apply m ∷ h) ≡ ok tt
      → Performed env ms (apply m ∷ h) result h'
      → Performed env (ok m ∷ ms) h result h'

module _ (lib : Library) (ctx : EngineContext) where
  unfoldable pub manifests_of : ManifestAdapter → Built Bool → List (Built Manifest)
  manifests_of a (err e) = err predicate_failed ∷ []
  manifests_of a (ok false) = []
  manifests_of a (ok true) = build_manifest lib ctx a ∷ []

  unfoldable pub wanted : List (String × ManifestAdapter) → List (Built Manifest)
  wanted [] = []
  wanted ((name, a) ∷ rest) = manifests_of a (asked lib ctx a.predicate) ++ wanted rest

  -- The abstract view of a component: the manifests of its adapters, the deployment, the service.
  unfoldable pub plan : Component → List (Built Manifest)
  plan w = wanted w.manifest_adapters ++ (build_deployment lib ctx w ∷ build_service lib ctx w ∷ [])

  -- One after the other, as long as each is built and applied.
  unfoldable pub perform : List (Built Manifest) → M (Built (Unit {0}))
  unfolding next
  perform [] = pure (ok tt)
  perform (m ∷ ms) = do done ← server_side_apply lib ctx m; next lib ctx (perform ms) done

  perform-append :
      (xs ys : List (Built Manifest)) (env : Env) (h : History)
      → perform (xs ++ ys) env h ≡ (perform xs >>= next lib ctx (perform ys)) env h
  unfolding perform next ◌>>=◌ pure
  perform-append [] ys env h = refl
  perform-append (x ∷ xs) ys env h = elim (Result-cases (server_side_apply lib ctx x env h).0) [
    | inl (u, e) ↦ rw e (perform-append xs ys env (server_side_apply lib ctx x env h).1)
    | inr (e, failed) ↦ rw failed refl
  ]

  perform-one :
      (m : Built Manifest) (env : Env) (h : History)
      → server_side_apply lib ctx m env h ≡ perform (m ∷ []) env h
  unfolding perform next ◌>>=◌ pure server_side_apply applied wrapped ask
  perform-one (err e) env h = refl
  perform-one (ok m) env h = elim (Result-cases (env.written (apply m ∷ h))) [
    | inl (tt, e) ↦ rw e refl
    | inr (e, failed) ↦ rw failed refl
  ]

  perform-turn :
      (a : ManifestAdapter) (b : Built Bool) (env : Env) (h : History)
      → manifest_turn lib ctx a b env h ≡ perform (manifests_of a b) env h
  unfolding manifest_turn perform manifests_of next ◌>>=◌ pure server_side_apply
  perform-turn a (err e) env h = refl
  perform-turn a (ok false) env h = refl
  perform-turn a (ok true) env h = perform-one (build_manifest lib ctx a) env h

  bind-cong :
      (m n : M (Built (Unit {0}))) (f g : M (Built (Unit {0}))) (env : Env) (h : History)
      → m env h ≡ n env h
      → ((h' : History) → f env h' ≡ g env h')
      → (m >>= next lib ctx f) env h ≡ (n >>= next lib ctx g) env h
  unfolding ◌>>=◌ next pure
  bind-cong m n f g env h e same = elim (Result-cases (n env h).0) [
    | inl (u, ok_n) ↦ rw (e, ok_n) (same (n env h).1)
    | inr (x, err_n) ↦ rw (e, err_n) refl
  ]

  perform-manifests :
      (xs : List (String × ManifestAdapter)) (env : Env) (h : History)
      → reconcile_manifests lib ctx xs env h ≡ perform (wanted xs) env h
  unfolding reconcile_manifests wanted perform
  perform-manifests [] env h = refl
  perform-manifests ((name, a) ∷ xs) env h =
      bind-cong (manifest_turn lib ctx a (asked lib ctx a.predicate))
        (perform (manifests_of a (asked lib ctx a.predicate))) (reconcile_manifests lib ctx xs)
        (perform (wanted xs)) env h (perform-turn a (asked lib ctx a.predicate) env h)
        (perform-manifests xs env)
      ∙ sym (perform-append (manifests_of a (asked lib ctx a.predicate)) (wanted xs) env h)

  perform-rest :
      (w : Component) (done : Built (Unit {0})) (env : Env) (h : History)
      → then_deployment lib ctx w done env h
        ≡ next lib ctx
            (perform (build_deployment lib ctx w ∷ build_service lib ctx w ∷ []))
            done
            env
            h
  unfolding then_deployment then_service next perform reconcile_deployment reconcile_service
  perform-rest w (err e) env h = refl
  perform-rest w (ok u) env h =
      bind-cong (reconcile_deployment lib ctx w)
        (server_side_apply lib ctx (build_deployment lib ctx w)) (reconcile_service lib ctx w)
        (perform (build_service lib ctx w ∷ [])) env h refl
        (perform-one (build_service lib ctx w) env)

  -- Updating a component's resources is performing its plan: the same result and the same calls.
  pub update_resources-refines :
      (w : Component) (env : Env) (h : History)
      → update_resources lib ctx w env h ≡ perform (plan w) env h
  unfolding update_resources plan ◌>>=◌
  update_resources-refines w env h =
      let after = perform (wanted w.manifest_adapters) env h in
      ap (λ (r : Built (Unit {0}) × History). then_deployment lib ctx w r.0 env r.1)
        (perform-manifests w.manifest_adapters env h)
      ∙ perform-rest w after.0 env after.1
      ∙ sym (perform-append (wanted w.manifest_adapters) _ env h)

  perform-Performed :
      (ms : List (Built Manifest)) (env : Env) (h : History)
      → Performed env ms h (perform ms env h).0 (perform ms env h).1
  unfolding perform server_side_apply next ◌>>=◌ pure ask applied wrapped
  perform-Performed [] env h = complete h
  perform-Performed (err e ∷ ms) env h = unbuilt e ms h
  perform-Performed (ok m ∷ ms) env h = elim (Result-cases (env.written (apply m ∷ h))) [
    | inr (e, failed) ↦ rw failed (refused m ms e h failed)
    | inl (u, e) ↦ rw e (written m ms h e (perform-Performed ms env (apply m ∷ h)))
  ]

  reconcile-performs :
      (w : Component) (env : Env) (h : History)
      → w.predicate ≡ none
      → reconcile lib ctx w env h ≡ perform (plan w) env h
  unfolding reconcile if_enabled asked
  reconcile-performs w env h always =
      ap (λ (p : Option Predicate). if_enabled lib ctx w (asked lib ctx p) env h) always
      ∙ update_resources-refines w env h

  -- Whatever the cluster answers, a component without a predicate performs its plan and makes no
  -- other call: a manifest is applied only where it could be built and the one before it was
  -- answered as written. The first that cannot be built ends the run with its error, the first whose
  -- application is answered by an error ends it with that error, and nothing follows; the run
  -- succeeds where every manifest of the plan was applied and written.
  pub reconcile-prefix :
      (w : Component) (env : Env) (h : History)
      → w.predicate ≡ none
      → Performed env (plan w) h (reconcile lib ctx w env h).0 (reconcile lib ctx w env h).1
  reconcile-prefix w env h always =
      rw (reconcile-performs w env h always) (perform-Performed (plan w) env h)
