-- ===== src/EngineAdapters/Deployments/Shape.antt =====
-- What a deployment that was adapted is.
use aitrigram.Base.{◌≡◌, refl, sym, some, inl, inr, Option-cases, none-ne-some, Bytes, insert_all}
use aitrigram.Cluster.Workloads.{Deployment}
use aitrigram.Names.Truncated.{component_name}
use aitrigram.EngineAdapters.Deployments.{
  EngineContext, labels_of, selector_of, adapt_container, adapt_pod, named, adapted,
  adapt_deployment,
}
use aitrigram.EngineAdapters.{get_pod_port}

pub adapt_deployment-eq-some :
    (ctx : EngineContext) (d d' : Deployment)
    → adapt_deployment ctx d ≡ some d'
    → (name : Bytes) × (component_name ctx.engine.name ctx.repository.name ≡ some name)
      × (adapted ctx d name ≡ d')
unfolding adapt_deployment named
adapt_deployment-eq-some ctx d d' h =
    elim (Option-cases (component_name ctx.engine.name ctx.repository.name)) [
      | inl panics ↦ absurd (none-ne-some (sym (rw panics at h)))
      | inr (name, e) ↦ let same : some (adapted ctx d name) ≡ some d' = rw e at h in (name, e, cc)
    ]

-- The parts of it that a service looks at.
pub adapt_deployment-parts :
    (ctx : EngineContext) (d d' : Deployment)
    → adapt_deployment ctx d ≡ some d'
    → (component_name ctx.engine.name ctx.repository.name ≡ some d'.name)
      × (d'.selector ≡ selector_of ctx.engine ctx.repository)
      × (d'.template_labels ≡ insert_all (labels_of ctx.engine ctx.repository) d.template_labels)
      × (d'.pod.container.port ≡ get_pod_port ctx.engine)
unfolding adapted adapt_pod adapt_container
adapt_deployment-parts ctx d d' h =
    let (name, e, same) = adapt_deployment-eq-some ctx d d' h in rw (← same) (e, refl, refl, refl)
