-- ===== src/EngineAdapters/Services/Reach.antt =====
-- The service of an engine and the pods of its deployment.
use mathlib.Core.Option.{some-injective}
use aitrigram.Base.{
  String, ◌≡◌, refl, sym, [], ◌∷◌, some, inl, inr, Option-cases, none-ne-some, Map, lookup,
  insert_all, lookup-insert_all, Bytes,
}
use aitrigram.Cluster.Workloads.{Deployment, Service}
use aitrigram.Names.Truncated.{component_name}
use aitrigram.EngineAdapters.Deployments.{EngineContext, labels_of, selector_of, adapt_deployment}
use aitrigram.EngineAdapters.Deployments.Shape.{adapt_deployment-parts}
use aitrigram.EngineAdapters.Services.{adapted_service, adapt_service}

adapt_service-eq-some :
    (ctx : EngineContext) (s s' : Service)
    → adapt_service ctx s ≡ some s'
    → (name : Bytes) × (component_name ctx.engine.name ctx.repository.name ≡ some name)
      × (adapted_service ctx s (some name) ≡ some s')
unfolding adapt_service adapted_service
adapt_service-eq-some ctx s s' h =
    elim (Option-cases (component_name ctx.engine.name ctx.repository.name)) [
      | inl panics ↦ absurd (none-ne-some (sym (rw panics at h)))
      | inr (name, e) ↦ (name, e, rw e at h)
    ]

-- Every label that a service selects by is on the pods.
abbrev pub Selects : (selector labels : Map String) → Type 0
Selects [] labels = Unit
Selects ((k, v) ∷ selector) labels = (lookup k labels ≡ some v) × Selects selector labels

template-Selects :
    (ctx : EngineContext) (labels : Map String)
    → Selects
        (selector_of ctx.engine ctx.repository)
        (insert_all (labels_of ctx.engine ctx.repository) labels)
unfolding lookup
template-Selects ctx labels =
    let at = λ (k : String).
      lookup-insert_all k (labels_of ctx.engine ctx.repository) labels (refl, (refl, (refl, tt))) in
    (at "app", (at "model", tt))

-- A service and a deployment that are adapted for one engine and one repository have one name; the
-- service selects by the deployment's own selector, the pods of the deployment carry every label of
-- it, and the service's target is the port of the container.
pub adapt_service-reaches :
    (ctx : EngineContext) (d d' : Deployment) (s s' : Service)
    → adapt_deployment ctx d ≡ some d'
    → adapt_service ctx s ≡ some s'
    → (s'.name ≡ d'.name)
      × (s'.selector ≡ d'.selector)
      × Selects s'.selector d'.template_labels
      × (s'.target_port ≡ d'.pod.container.port)
unfolding adapted_service
adapt_service-reaches ctx d d' s s' hd hs =
    let (named, selector, labels, port) = adapt_deployment-parts ctx d d' hd in
    let (name, e, made) = adapt_service-eq-some ctx s s' hs in
    let same_name : name ≡ d'.name = cc in
    let selects = template-Selects ctx d.template_labels in
    rw (← some-injective _ _ made, selector, labels, port, same_name) (refl, refl, selects, refl)
