-- ===== src/EngineWorkload/Reconcile/Builds.antt =====
-- What the manifests of a model's component are built from.
use mathlib.Core.Option.{some-injective}
use aitrigram.Base.{
  ◌≡◌, refl, sym, ap, ◌∙◌, Option, none, some, inl, inr, ◌==◌, Bool-cases, none-ne-some,
  Option-cases, Bytes,
}
use aitrigram.Base.Results.{ok, err, bind-eq-ok, ok-injective}
use aitrigram.Cluster.{ApiError}
use aitrigram.Api.Engine.{engine_vllm}
use aitrigram.Cluster.{Reply}
use aitrigram.Cluster.Workloads.{
  Deployment, Service, ConfigMap, Manifest, of_config_map, of_deployment, of_service,
}
use aitrigram.Library.{Library}
use aitrigram.Names.Truncated.{component_name}
use aitrigram.EngineAdapters.Deployments.{EngineContext, adapt_deployment}
use aitrigram.EngineAdapters.Services.{adapt_service, adapt_vllm_config_map}
use aitrigram.EngineWorkload.{
  WorkloadError, Built, Adapter, own_failed, convert_failed, load_failed, panics, Component,
  model_component, named_component, new_model_component, vllm_config_adapter, base_component,
  with_manifest_adapter, new_manifest_adapter_with_predicate, with_deployment_adapter,
  with_service_adapter, deployment_adapter, service_adapter, built_or, config_map_adapter, of_map,
  empty_config_map,
}
use aitrigram.EngineWorkload.Reconcile.{
  build_deployment, build_service, build_manifest, wrapped, loaded_deployment, loaded_service,
  created_manifest, in_namespace, adapted_by, finished, to_unstructured,
}

pub new_model_component-eq-some :
    (lib : Library) (ctx : EngineContext) (w : Component)
    → new_model_component lib ctx.engine ctx.repository ≡ some w
    → (name : Bytes) × (model_component lib ctx.engine name ≡ w)
unfolding new_model_component named_component
new_model_component-eq-some lib ctx w h =
    elim (Option-cases (component_name ctx.engine.name ctx.repository.name)) [
      | inl nameless ↦ absurd (none-ne-some (sym (rw nameless at h)))
      | inr (name, e) ↦ (name, some-injective _ _ (rw e at h))
    ]

wrapped-eq-ok {ℓ} :
    {A : Type ℓ} (tag : ApiError → WorkloadError) (r : Reply A) (a : A)
    → wrapped tag r ≡ ok a
    → r ≡ ok a
unfolding wrapped
wrapped-eq-ok tag (ok b) a h = ap ok (ok-injective b a h)
wrapped-eq-ok tag (err e) a h = cc

finished-eq-ok :
    (lib : Library) (ctx : EngineContext) (r : Built Manifest) (m : Manifest)
    → finished lib ctx r ≡ ok m
    → (m0 : Manifest) × (r ≡ ok m0) × (lib.own ctx.engine m0 ≡ ok m)
unfolding finished
finished-eq-ok lib ctx (err e) m h = cc
finished-eq-ok lib ctx (ok m0) m h =
    let (owned, own, rest) = bind-eq-ok (wrapped own_failed (lib.own ctx.engine m0)) _ h in
    let (u, converted, same) =
      bind-eq-ok (wrapped convert_failed (to_unstructured lib ctx owned)) _ rest in
    (m0, refl, wrapped-eq-ok own_failed _ _ own ∙ ap ok (ok-injective owned m same))

loaded_deployment-eq-ok :
    (lib : Library) (ctx : EngineContext) (f : Option (Adapter Deployment)) (r : Built Deployment)
    (m : Manifest)
    → loaded_deployment lib ctx f r ≡ ok m
    → (t : Deployment) × (d : Deployment) × (r ≡ ok t)
      × (adapted_by f ctx (record t { namespace = ctx.namespace }) ≡ ok d)
      × (of_deployment d ≡ m)
unfolding loaded_deployment
loaded_deployment-eq-ok lib ctx f (err e) m h = cc
loaded_deployment-eq-ok lib ctx f (ok t) m h =
    let (d, adapted, same) =
      bind-eq-ok (adapted_by f ctx (record t { namespace = ctx.namespace })) _ h in
    (t, d, refl, adapted, ok-injective _ _ same)

built_or-eq-ok {ℓ} :
    {A : Type ℓ} (e : WorkloadError) (r : Option A) (a : A) → built_or e r ≡ ok a → r ≡ some a
unfolding built_or
built_or-eq-ok e none a h = cc
built_or-eq-ok e (some b) a h = ap some (ok-injective b a h)

model_adapter :
    (lib : Library) (ctx : EngineContext) (t : Deployment) (name : Bytes)
    → adapted_by
        (model_component lib ctx.engine name).adapt_deployment
        ctx
        (record t { namespace = ctx.namespace })
      ≡ built_or panics (adapt_deployment ctx (record t { namespace = ctx.namespace }))
unfolding adapted_by model_component base_component with_manifest_adapter with_deployment_adapter
    with_service_adapter deployment_adapter
model_adapter lib ctx t name = elim (Bool-cases (ctx.engine.spec.engine_type == engine_vllm)) [
  | inl vllm ↦ rw vllm refl
  | inr another ↦ rw another refl
]

-- The empty config map in the context's namespace, adapted, and owned by the engine.
abbrev pub OfConfigMap : Library → EngineContext → Manifest → Type 0
OfConfigMap lib ctx c =
    (m : ConfigMap) × (adapt_vllm_config_map lib.syntax lib.marshal ctx
        (record empty_config_map { namespace = ctx.namespace })
      ≡ some m)
    × (lib.own ctx.engine (of_config_map m) ≡ ok c)

-- The template of the engine's type in the context's namespace, adapted, and owned by the engine.
abbrev pub OfDeployment : Library → EngineContext → Manifest → Type 0
OfDeployment lib ctx m =
    (t : Deployment) × (d : Deployment) × (lib.deployment_manifest ctx.engine.spec.engine_type
      ≡ ok t)
    × (adapt_deployment ctx (record t { namespace = ctx.namespace }) ≡ some d)
    × (lib.own ctx.engine (of_deployment d) ≡ ok m)

-- The same of the service's template.
abbrev pub OfService : Library → EngineContext → Manifest → Type 0
OfService lib ctx m =
    (t : Service) × (s : Service) × (lib.service_manifest ctx.engine.spec.engine_type ≡ ok t)
    × (adapt_service ctx (record t { namespace = ctx.namespace }) ≡ some s)
    × (lib.own ctx.engine (of_service s) ≡ ok m)

-- The deployment that a model's component applies is the template of the engine's type in the
-- context's namespace, adapted, and owned by the engine.
pub build_deployment-eq-ok :
    (lib : Library) (ctx : EngineContext) (w : Component) (m : Manifest)
    → new_model_component lib ctx.engine ctx.repository ≡ some w
    → build_deployment lib ctx w ≡ ok m
    → (t : Deployment) × (d : Deployment) × (lib.deployment_manifest ctx.engine.spec.engine_type
        ≡ ok t)
      × (adapt_deployment ctx (record t { namespace = ctx.namespace }) ≡ some d)
      × (lib.own ctx.engine (of_deployment d) ≡ ok m)
unfolding build_deployment
build_deployment-eq-ok lib ctx w m made h =
    let (name, same_w) = new_model_component-eq-some lib ctx w made in
    let r = wrapped load_failed (lib.deployment_manifest ctx.engine.spec.engine_type) in
    let (m0, loaded, owned) =
      finished-eq-ok lib ctx (loaded_deployment lib ctx w.adapt_deployment r) m h in
    let (t, d, template, adapted, same) =
      loaded_deployment-eq-ok lib ctx w.adapt_deployment r m0 loaded in
    let by_model = rw (← same_w, model_adapter lib ctx t name) at adapted in
    (
      t,
      d,
      wrapped-eq-ok load_failed _ t template,
      built_or-eq-ok panics _ d by_model,
      ap (lib.own ctx.engine) same ∙ owned,
    )

loaded_service-eq-ok :
    (lib : Library) (ctx : EngineContext) (f : Option (Adapter Service)) (r : Built Service)
    (m : Manifest)
    → loaded_service lib ctx f r ≡ ok m
    → (t : Service) × (s : Service) × (r ≡ ok t)
      × (adapted_by f ctx (record t { namespace = ctx.namespace }) ≡ ok s)
      × (of_service s ≡ m)
unfolding loaded_service
loaded_service-eq-ok lib ctx f (err e) m h = cc
loaded_service-eq-ok lib ctx f (ok t) m h =
    let (s, adapted, same) =
      bind-eq-ok (adapted_by f ctx (record t { namespace = ctx.namespace })) _ h in
    (t, s, refl, adapted, ok-injective _ _ same)

service_adapted :
    (lib : Library) (ctx : EngineContext) (t : Service) (name : Bytes)
    → adapted_by
        (model_component lib ctx.engine name).adapt_service
        ctx
        (record t { namespace = ctx.namespace })
      ≡ built_or panics (adapt_service ctx (record t { namespace = ctx.namespace }))
unfolding adapted_by model_component base_component with_manifest_adapter with_deployment_adapter
    with_service_adapter service_adapter
service_adapted lib ctx t name = elim (Bool-cases (ctx.engine.spec.engine_type == engine_vllm)) [
  | inl vllm ↦ rw vllm refl
  | inr another ↦ rw another refl
]

pub build_service-eq-ok :
    (lib : Library) (ctx : EngineContext) (w : Component) (m : Manifest)
    → new_model_component lib ctx.engine ctx.repository ≡ some w
    → build_service lib ctx w ≡ ok m
    → OfService lib ctx m
unfolding build_service
build_service-eq-ok lib ctx w m made h =
    let (name, same_w) = new_model_component-eq-some lib ctx w made in
    let r = wrapped load_failed (lib.service_manifest ctx.engine.spec.engine_type) in
    let (m0, loaded, owned) =
      finished-eq-ok lib ctx (loaded_service lib ctx w.adapt_service r) m h in
    let (t, s, template, adapted, same) =
      loaded_service-eq-ok lib ctx w.adapt_service r m0 loaded in
    let by_model = rw (← same_w, service_adapted lib ctx t name) at adapted in
    (
      t,
      s,
      wrapped-eq-ok load_failed _ t template,
      built_or-eq-ok panics _ s by_model,
      ap (lib.own ctx.engine) same ∙ owned,
    )

of_map-eq-ok :
    (r : Option ConfigMap) (m : Manifest)
    → of_map r ≡ ok m
    → (c : ConfigMap) × (r ≡ some c) × (of_config_map c ≡ m)
unfolding of_map
of_map-eq-ok none m h = cc
of_map-eq-ok (some c) m h = (c, refl, ok-injective _ _ h)

pub build_config_map-eq-ok :
    (lib : Library) (ctx : EngineContext) (m : Manifest)
    → build_manifest lib ctx (vllm_config_adapter lib) ≡ ok m
    → OfConfigMap lib ctx m
unfolding build_manifest created_manifest vllm_config_adapter new_manifest_adapter_with_predicate
    adapted_by in_namespace config_map_adapter
build_config_map-eq-ok lib ctx m h =
    let (m0, made, owned) = finished-eq-ok lib ctx _ m h in
    let (c, adapted, same) = of_map-eq-ok _ m0 made in
    (c, adapted, ap (lib.own ctx.engine) same ∙ owned)
