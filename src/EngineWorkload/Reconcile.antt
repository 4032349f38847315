-- ===== src/EngineWorkload/Reconcile.antt =====
-- `llmEngineWorkload.Reconcile` (internal/controller/component/workload.go): the extra manifests, the
-- deployment and the service, each built from its template and applied, or everything deleted.
pub mod Plan
pub mod Builds
pub mod Model
use aitrigram.Base.{
  ℕ, String, List, [], ◌∷◌, Bool, true, false, not, Option, none, some, if◌then◌else◌, Bytes,
}
use aitrigram.Base.Results.{Result, ok, err}
use aitrigram.Base.Results as Results
use aitrigram.Cluster.{
  ApiError, is_not_found, Reply, M, pure, ask, ◌>>=◌, apply, delete_deployment, delete_service,
}
use aitrigram.Cluster.Workloads.{
  Deployment, Service, ConfigMap, Manifest, of_config_map, of_deployment, of_service,
}
use aitrigram.Library.{Library}
use aitrigram.EngineAdapters.Deployments.{EngineContext}
use aitrigram.EngineWorkload.{
  WorkloadError, predicate_failed, missing_create, load_failed, own_failed, convert_failed,
  apply_failed, delete_failed, Built, Predicate, Adapter, ManifestAdapter, Component,
}

-- fmt.Errorf("…: %w", err)
wrapped {ℓ} : {A : Type ℓ} → (ApiError → WorkloadError) → Reply A → Built A
wrapped tag (ok a) = ok a
wrapped tag (err e) = err (tag e)

adapted_by {ℓ} : {A : Type ℓ} → Option (EngineContext → A → Built A) → EngineContext → A → Built A
adapted_by none ctx a = ok a
adapted_by (some f) ctx a = f ctx a

unfoldable pub in_namespace : String → Manifest → Manifest
in_namespace n (of_config_map c) = of_config_map (record c { namespace = n })
in_namespace n (of_deployment d) = of_deployment (record d { namespace = n })
in_namespace n (of_service s) = of_service (record s { namespace = n })

module _ (lib : Library) (ctx : EngineContext) where
  kinds_known : Manifest → Reply (Unit {0}) → Reply (Unit {0})
  kinds_known m (err e) = err e
  kinds_known m (ok u) = lib.convert m

  to_unstructured : Manifest → Reply (Unit {0})
  unfolding kinds_known
  to_unstructured m = kinds_known m (lib.object_kinds m)

  -- What is applied: owned by the engine, and converted.
  unfoldable pub finished : Built Manifest → Built Manifest
  unfolding wrapped to_unstructured
  finished (err e) = err e
  finished (ok m) =
      Results.◌>>=◌ (wrapped own_failed (lib.own ctx.engine m))
        λ owned. Results.◌>>=◌ (wrapped convert_failed (to_unstructured owned)) λ _. ok owned

  loaded_deployment : Option (Adapter Deployment) → Built Deployment → Built Manifest
  unfolding adapted_by
  loaded_deployment f (err e) = err e
  loaded_deployment f (ok d) =
      Results.◌>>=◌ (adapted_by f ctx (record d { namespace = ctx.namespace }))
        λ d'. ok (of_deployment d')

  loaded_service : Option (Adapter Service) → Built Service → Built Manifest
  unfolding adapted_by
  loaded_service f (err e) = err e
  loaded_service f (ok s) =
      Results.◌>>=◌ (adapted_by f ctx (record s { namespace = ctx.namespace }))
        λ s'. ok (of_service s')

  unfoldable pub build_deployment : Component → Built Manifest
  unfolding loaded_deployment wrapped finished
  build_deployment w = finished (
      loaded_deployment w.adapt_deployment
        (wrapped load_failed (lib.deployment_manifest ctx.engine.spec.engine_type)))

  unfoldable pub build_service : Component → Built Manifest
  unfolding loaded_service wrapped finished
  build_service w = finished (
      loaded_service w.adapt_service
        (wrapped load_failed (lib.service_manifest ctx.engine.spec.engine_type)))

  created_manifest : ManifestAdapter → Option Manifest → Built Manifest
  unfolding adapted_by in_namespace
  created_manifest a none = err missing_create
  created_manifest a (some m) = adapted_by a.adapt ctx (in_namespace ctx.namespace m)

  unfoldable pub build_manifest : ManifestAdapter → Built Manifest
  unfolding created_manifest finished
  build_manifest a = finished (created_manifest a a.create)

  applied : Reply (Unit {0}) → Built (Unit {0})
  unfolding wrapped
  applied reply = wrapped apply_failed reply

  unfoldable pub server_side_apply : Built Manifest → M (Built (Unit {0}))
  unfolding applied
  server_side_apply (err e) = pure (err e)
  server_side_apply (ok m) = do reply ← ask (apply m) (λ env h. env.written h); pure (applied reply)

  -- An absent predicate holds.
  unfoldable pub asked : Option Predicate → Built Bool
  asked none = ok true
  asked (some f) = f ctx

  next {ℓ} : {A : Type ℓ} → M (Built A) → Built (Unit {0}) → M (Built A)
  next m (err e) = pure (err e)
  next m (ok _) = m

  manifest_turn : ManifestAdapter → Built Bool → M (Built (Unit {0}))
  unfolding server_side_apply build_manifest
  manifest_turn a (err e) = pure (err predicate_failed)
  manifest_turn a (ok false) = pure (ok tt)
  manifest_turn a (ok true) = server_side_apply (build_manifest a)

  unfoldable pub reconcile_manifests : List (String × ManifestAdapter) → M (Built (Unit {0}))
  unfolding manifest_turn next asked
  reconcile_manifests [] = pure (ok tt)
  reconcile_manifests ((name, a) ∷ rest) = do
    done ← manifest_turn a (asked a.predicate)
    next (reconcile_manifests rest) done

  unfoldable pub reconcile_deployment : Component → M (Built (Unit {0}))
  reconcile_deployment w = server_side_apply (build_deployment w)

  unfoldable pub reconcile_service : Component → M (Built (Unit {0}))
  reconcile_service w = server_side_apply (build_service w)

  then_service : Component → Built (Unit {0}) → M (Built (Unit {0}))
  unfolding next
  then_service w done = next (reconcile_service w) done

  then_deployment : Component → Built (Unit {0}) → M (Built (Unit {0}))
  then_deployment w (err e) = pure (err e)
  then_deployment w (ok _) = do done ← reconcile_deployment w; then_service w done

  unfoldable pub update_resources : Component → M (Built (Unit {0}))
  unfolding then_deployment then_service
  update_resources w = do done ← reconcile_manifests w.manifest_adapters; then_deployment w done

  deleted : Reply (Unit {0}) → Built (Unit {0})
  deleted (ok _) = ok tt
  deleted (err e) = if is_not_found e then ok tt else err (delete_failed e)

  then_delete_service : Component → Built (Unit {0}) → M (Built (Unit {0}))
  unfolding deleted
  then_delete_service w (err e) = pure (err e)
  then_delete_service w (ok _) = do
    reply ← ask (delete_service ctx.namespace w.name) (λ env h. env.written h)
    pure (deleted reply)

  unfoldable pub delete_resources : Component → M (Built (Unit {0}))
  unfolding deleted then_delete_service
  delete_resources w = do
    reply ← ask (delete_deployment ctx.namespace w.name) (λ env h. env.written h)
    then_delete_service w (deleted reply)

  if_enabled : Component → Built Bool → M (Built (Unit {0}))
  if_enabled w (err e) = pure (err predicate_failed)
  if_enabled w (ok false) = delete_resources w
  if_enabled w (ok true) = update_resources w

  unfoldable pub reconcile : Component → M (Built (Unit {0}))
  unfolding if_enabled asked
  reconcile w = if_enabled w (asked w.predicate)
