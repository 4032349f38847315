-- ===== src/EngineWorkload/Reconcile/Model.antt =====
-- The component of an engine and a model: what it applies, and from what.
use aitrigram.Base.{
  ◌≡◌, refl, sym, ap, ◌∙◌, List, [], ◌∷◌, ◌++◌, map, true, false, none, some, ◌⊎◌, inl, inr, ◌==◌,
  Bool-cases, Bytes, if◌then◌else◌,
}
use aitrigram.Base.Results.{ok, ok-ne-err}
use aitrigram.Api.Engine.{engine_vllm}
use aitrigram.Cluster.{apply, Env, History}
use aitrigram.Cluster.Workloads.{Manifest}
use aitrigram.Library.{Library}
use aitrigram.EngineAdapters.Deployments.{EngineContext}
use aitrigram.EngineAdapters.Services.{is_vllm_engine}
use aitrigram.EngineWorkload.{
  Built, Component, model_component, new_model_component, vllm_config_adapter, base_component,
  with_manifest_adapter, new_manifest_adapter_with_predicate, with_deployment_adapter,
  with_service_adapter, new_llm_engine_component, put_manifest,
}
use aitrigram.EngineWorkload.Reconcile.{
  build_deployment, build_service, build_manifest, asked, reconcile,
}
use aitrigram.EngineWorkload.Reconcile.Plan.{
  Performed, complete, unbuilt, refused, written, manifests_of, wanted, plan, reconcile-prefix,
}
use aitrigram.EngineWorkload.Reconcile.Builds.{
  new_model_component-eq-some, OfConfigMap, OfDeployment, OfService, build_deployment-eq-ok,
  build_service-eq-ok, build_config_map-eq-ok,
}

applied_calls : List Manifest → History → History
applied_calls [] h = h
applied_calls (m ∷ ms) h = applied_calls ms (apply m ∷ h)

abbrev config_manifests : Library → EngineContext → List (Built Manifest)
config_manifests lib ctx =
    if is_vllm_engine ctx then build_manifest lib ctx (vllm_config_adapter lib) ∷ [] else []

model_component-plan :
    (lib : Library) (ctx : EngineContext) (name : Bytes)
    → let w = model_component lib ctx.engine name in
      (w.predicate ≡ none)
      × (plan lib ctx w
          ≡ config_manifests lib ctx ++ (build_deployment lib ctx w ∷ build_service lib ctx w ∷ []))
unfolding model_component base_component with_manifest_adapter put_manifest with_deployment_adapter
    with_service_adapter new_llm_engine_component plan wanted asked manifests_of vllm_config_adapter
    new_manifest_adapter_with_predicate is_vllm_engine
model_component-plan lib ctx name = elim (Bool-cases (ctx.engine.spec.engine_type == engine_vllm)) [
  | inl vllm ↦ rw vllm (refl, rw (vllm, manifests_of) refl)
  | inr another ↦ rw another (refl, refl)
]

-- What a reconciliation that succeeded has applied above the calls before it.
abbrev pub Applied : Library → EngineContext → History → History → (d s : Manifest) → Type 0
Applied lib ctx h h' d s =
    ((is_vllm_engine ctx ≡ true)
      × (c : Manifest) × OfConfigMap lib ctx c
      × (h' ≡ apply s ∷ apply d ∷ apply c ∷ h))
    ⊎ ((is_vllm_engine ctx ≡ false) × (h' ≡ apply s ∷ apply d ∷ h))

map-eq-two :
    (ms : List Manifest) (x y : Built Manifest)
    → x ∷ y ∷ [] ≡ map ok ms
    → (a : Manifest) × (b : Manifest) × (x ≡ ok a) × (y ≡ ok b) × (ms ≡ a ∷ b ∷ [])
map-eq-two [] x y h = cc
map-eq-two (a ∷ []) x y h = cc
map-eq-two (a ∷ b ∷ []) x y h = (a, b, cc, cc, refl)
map-eq-two (a ∷ b ∷ c ∷ ms) x y h = cc

map-eq-cons :
    (ms : List Manifest) (x : Built Manifest) (xs : List (Built Manifest))
    → x ∷ xs ≡ map ok ms
    → (a : Manifest) × (rest : List Manifest) × (x ≡ ok a) × (xs ≡ map ok rest) × (ms ≡ a ∷ rest)
map-eq-cons [] x xs h = cc
map-eq-cons (a ∷ rest) x xs h = (a, rest, cc, cc, refl)

-- A run that succeeds has applied every manifest of its list.
Performed-ok :
    (lib : Library) (ctx : EngineContext) (env : Env) {ms : List (Built Manifest)} {h h' : History}
    {result : Built (Unit {0})}
    → Performed env ms h result h'
    → result ≡ ok tt
    → (done : List Manifest) × (ms ≡ map ok done) × (h' ≡ applied_calls done h)
unfolding applied_calls
Performed-ok lib ctx env (complete h) e = ([], refl, refl)
Performed-ok lib ctx env (unbuilt x ms h) e = absurd (ok-ne-err (sym e))
Performed-ok lib ctx env (refused m ms x h failed) e = absurd (ok-ne-err (sym e))
Performed-ok lib ctx env (written m ms h _ rest) e =
    let (done, all, calls) = Performed-ok lib ctx env rest e in
    (m ∷ done, ap (λ (xs : List (Built Manifest)). ok m ∷ xs) all, calls)

applied_in_order :
    (lib : Library) (ctx : EngineContext) (h h' : History) (done : List Manifest)
    (x y : Built Manifest)
    → config_manifests lib ctx ++ (x ∷ y ∷ []) ≡ map ok done
    → h' ≡ applied_calls done h
    → (d : Manifest) × (s : Manifest) × (x ≡ ok d) × (y ≡ ok s) × Applied lib ctx h h' d s
unfolding applied_calls
applied_in_order lib ctx h h' done x y all calls = elim (Bool-cases (is_vllm_engine ctx)) [
  | inl vllm ↦
      let (c, ms, first, rest, split) = map-eq-cons done _ (x ∷ y ∷ []) (rw vllm at all) in
      let (d, s, xd, ys, two) = map-eq-two ms x y rest in
      let of_map = build_config_map-eq-ok lib ctx c first in
      (d, s, xd, ys, inl (vllm, c, of_map, calls ∙ rw (split, two) refl))
  | inr another ↦
      let (d, s, xd, ys, two) = map-eq-two done x y (rw another at all) in
      (d, s, xd, ys, inr (another, calls ∙ rw two refl))
]

-- Where the reconciliation of a model's component succeeds, it has made these calls alone: for vLLM
-- the config map is applied, adapted from an empty one, then for every engine the deployment and
-- last the service, each adapted from the template of the engine's type; each is in the context's
-- namespace before it is adapted, and owned by the engine after. The deployment and the service
-- are the ones that the component builds.
pub reconcile-applies :
    (lib : Library) (ctx : EngineContext) (w : Component) (env : Env) (h : History)
    → new_model_component lib ctx.engine ctx.repository ≡ some w
    → (reconcile lib ctx w env h).0 ≡ ok tt
    → (d : Manifest) × (s : Manifest) × (build_deployment lib ctx w ≡ ok d)
      × (build_service lib ctx w ≡ ok s)
      × OfDeployment lib ctx d
      × OfService lib ctx s
      × Applied lib ctx h (reconcile lib ctx w env h).1 d s
reconcile-applies lib ctx w env h made done_ok =
    let (name, same_w) = new_model_component-eq-some lib ctx w made in
    let (always, planned) = model_component-plan lib ctx name in
    let run =
      reconcile-prefix lib ctx w env h
        (ap (λ (v : Component). v.predicate) (sym same_w) ∙ always) in
    let (done, every, calls) = Performed-ok lib ctx env run done_ok in
    let all = sym planned ∙ ap (plan lib ctx) same_w ∙ every in
    let (d, s, d_built, s_built, in_order) =
      applied_in_order lib ctx h _ done _ _ (rw (← same_w) all) calls in
    (
      d,
      s,
      d_built,
      s_built,
      build_deployment-eq-ok lib ctx w d made d_built,
      build_service-eq-ok lib ctx w s made s_built,
      in_order,
    )
