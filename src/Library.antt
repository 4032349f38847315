-- ===== src/Library.antt =====
-- What the controllers call of other modules (k8s.io/apimachinery, k8s.io/client-go,
-- controller-runtime) and of the embedded assets: parameters, with the documented behaviour that a
-- theorem relies on as a hypothesis of it.
pub mod Sample
use aitrigram.Base.{String, Bytes, ◌≡◌, ◌≢◌, ◌↔◌, List, Option, none, some, Bool, true, false}
use aitrigram.Base.Results.{Result, ok, err}
use aitrigram.Api.{Condition}
use aitrigram.Api.Repository.{ModelRepository, ModelRepositoryStatus}
use aitrigram.Cluster.Issues.{Adds, Adds-trans, Issues}
use aitrigram.Cluster.{Call, ApiError, conflict, Reply, Env, History, M}
use aitrigram.Cluster.Objects.{Job}
use aitrigram.Cluster.Workloads.{Deployment, Service, Manifest}
use aitrigram.Api.Engine.{LlmEngine, LlmEngineStatus}
use aitrigram.VllmConfig.Values.{Fields}
use aitrigram.VllmConfig.Arguments.{Syntax}

pub record Library : Type 0 where
  -- meta.SetStatusCondition and meta.FindStatusCondition
  pub set_status_condition : List Condition → Condition → List Condition
  pub find_status_condition : List Condition → String → Option Condition
  -- controllerutil's functions on finalizers
  pub contains_finalizer : List String → String → Bool
  pub add_finalizer : List String → String → List String
  pub remove_finalizer : List String → String → List String
  -- ctrl.SetControllerReference
  pub set_controller_reference : ModelRepository → Job → Reply Job
  -- ctrl.SetControllerReference for what belongs to an engine; Scheme.ObjectKinds and
  -- DefaultUnstructuredConverter.ToUnstructured: whether they succeed
  pub own : LlmEngine → Manifest → Reply Manifest
  pub object_kinds : Manifest → Reply (Unit {0})
  pub convert : Manifest → Reply (Unit {0})
  -- equality.Semantic.DeepEqual
  pub deep_equal : ModelRepositoryStatus → ModelRepositoryStatus → Bool
  pub deep_equal_engine : LlmEngineStatus → LlmEngineStatus → Bool
  -- retry.RetryOnConflict(retry.DefaultRetry, …)
  pub retry_on_conflict : M (Reply (Unit {0})) → M (Reply (Unit {0}))
  -- resource.ParseQuantity succeeds
  pub parses : String → Bool
  -- the manifest "download_job" of an origin, and its script files
  pub download_job_manifest : String → Reply Job
  pub script : (origin file : String) → Reply String
  -- the templates "deployment.yaml" and "service.yaml" of an engine type
  pub deployment_manifest : (engine_type : String) → Reply Deployment
  pub service_manifest : (engine_type : String) → Reply Service
  -- strconv.ParseFloat and json.Unmarshal; yaml.Marshal
  pub syntax : Syntax
  pub marshal : Fields → Option Bytes
  -- the text of an API error
  pub describe : ApiError → String

-- A condition that was set is found, and the others are as they were.
pub record SetsConditions (lib : Library) : Type 0 where
  pub find_set_same :
      (cs : List Condition) (c : Condition)
      → lib.find_status_condition (lib.set_status_condition cs c) c.type ≡ some c
  pub find_set_other :
      (cs : List Condition) (c : Condition) (type : String)
      → c.type ≢ type
      → lib.find_status_condition (lib.set_status_condition cs c) type
        ≡ lib.find_status_condition cs type

-- Attempts in a row, each but the last answered by a conflict.
pub data Attempts (m : M (Reply (Unit {0}))) (env : Env)
    : History → Reply (Unit {0}) × History → Type 0 where
  last : (h : History) → Attempts m env h (m env h)
  again :
      (h : History) {out : Reply (Unit {0}) × History}
      → (m env h).0 ≡ err conflict
      → Attempts m env (m env h).1 out
      → Attempts m env h out

abbrev pub RetriesOnConflict : Library → Type 0
RetriesOnConflict lib =
    (m : M (Reply (Unit {0}))) (env : Env) (h : History)
    → Attempts m env h (lib.retry_on_conflict m env h)

-- What every attempt keeps to, a retried action keeps to.
pub Issues-retry :
    {P : Call → Type 0} (lib : Library) (m : M (Reply (Unit {0})))
    → RetriesOnConflict lib
    → Issues P m
    → Issues P (lib.retry_on_conflict m)
Issues-retry {P} lib m retries im = record { at = λ env h. go env h (retries m env h) }
  where
    go :
        (env : Env) (h : History) {out : Reply (Unit {0}) × History}
        → Attempts m env h out
        → Adds P h out.1
    go env h (last _) = im.at env h
    go env h (again _ e rest) = Adds-trans (im.at env h) (go env (m env h).1 rest)
