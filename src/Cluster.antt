-- ===== src/Cluster.antt =====
-- The cluster behind the controllers' client (sigs.k8s.io/controller-runtime), which is not part of
-- the repository: every call is answered by an `Env`, from the history of the calls so far. Nothing
-- is assumed of the answers, so that what other clients write in between is covered.
pub mod Objects
pub mod Workloads
pub mod Issues
pub mod Sample
use aitrigram.Base.{String, List, [], ◌∷◌, ◌++◌, Option, Bool, true, false, Bytes}
use aitrigram.Base.Results.{Result, ok, err}
use aitrigram.Api.Repository.{ModelRepository}
use aitrigram.Api.Engine.{LlmEngine}
use aitrigram.Storage.Discovery.{StorageClass}
use aitrigram.Storage.Backend.{PersistentVolume}
use aitrigram.Cluster.Objects.{Job, PersistentVolumeClaim}
use aitrigram.Cluster.Workloads.{EngineVolume, Node, Deployment, Manifest}

-- The kinds of API errors that the controllers tell apart.
pub data ApiError : Type 0 where
  not_found already_exists conflict failed : ApiError

abbrev pub is_not_found : ApiError → Bool
is_not_found not_found = true
is_not_found _ = false

abbrev pub is_already_exists : ApiError → Bool
is_already_exists already_exists = true
is_already_exists _ = false

abbrev pub Reply {ℓ} : Type ℓ → Type ℓ
Reply A = Result ApiError A

-- An object in a namespace is named by the namespace and the bytes of its name.
pub data Call : Type 0 where
  get_repository : String → Call
  update_repository : ModelRepository → Call
  update_repository_status : ModelRepository → Call
  list_engines : Call
  list_storage_classes : Call
  list_jobs : (namespace repository : String) → Call
  get_job : String → Bytes → Call
  create_job : Job → Call
  delete_job : String → Bytes → Call
  get_claim : String → Bytes → Call
  create_claim : PersistentVolumeClaim → Call
  update_claim : PersistentVolumeClaim → Call
  delete_claim : String → Bytes → Call
  get_volume : Bytes → Call
  create_volume : EngineVolume → Call
  update_volume : EngineVolume → Call
  delete_volume : Bytes → Call
  get_engine : (namespace name : String) → Call
  update_engine : LlmEngine → Call
  update_engine_status : LlmEngine → Call
  get_node : String → Call
  list_nodes : Call
  get_deployment : String → Bytes → Call
  apply : Manifest → Call
  delete_deployment : String → Bytes → Call
  delete_service : String → Bytes → Call

-- The newest call stands first.
abbrev pub History : Type 0
History = List Call

pub record Env : Type 0 where
  pub repository : History → Reply ModelRepository
  pub written : History → Reply (Unit {0})
  pub engines : History → Reply (List LlmEngine)
  pub storage_classes : History → Reply (List StorageClass)
  pub jobs : History → Reply (List Job)
  pub job : History → Reply Job
  pub claim : History → Reply PersistentVolumeClaim
  pub volume : History → Reply PersistentVolume
  pub engine_volume : History → Reply EngineVolume
  pub engine : History → Reply LlmEngine
  pub node : History → Reply Node
  pub nodes : History → Reply (List Node)
  pub deployment : History → Reply Deployment

-- An action reads the answers and lengthens the history.
abbrev pub M {ℓ} : Type ℓ → Type ℓ
M A = Env → History → A × History

module _ {ℓ} {A : Type ℓ} where
  unfoldable pub pure : A → M A
  pure a env h = (a, h)

  unfoldable pub ask : Call → (Env → History → A) → M A
  ask call answer env h = (answer env (call ∷ h), call ∷ h)

infixl 5 ◌>>=◌ ◌>>◌
unfoldable pub ◌>>=◌ {ℓ κ} : {A : Type ℓ} {B : Type κ} → M A → (A → M B) → M B
◌>>=◌ m f env h = let (a, h') = m env h in f a env h'

unfoldable pub ◌>>◌ {ℓ κ} : {A : Type ℓ} {B : Type κ} → M A → M B → M B
unfolding ◌>>=◌
m >> n = m >>= λ _. n
