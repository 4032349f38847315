-- ===== src/Provider.antt =====
-- The storage of a ModelRepository: internal/controller/storage/provider.go and the rest of
-- storage_sc.go. The provider's claim has the name "{repository}-storage".
pub mod Status
pub mod Claims
pub mod Keeps
pub mod Readiness
mod Tests
use aitrigram.Base.{
  String, List, [], ◌∷◌, Bool, true, false, not, Option, none, some, if◌then◌else◌, ◌==◌, Bytes,
  bytes, concat, is_blank,
}
use aitrigram.Base.Results
use aitrigram.Base.Results.{Result, ok, err}
use aitrigram.Api.Repository.{ModelRepository, StorageStatus}
use aitrigram.Storage.Discovery.{
  AccessMode, is_rwx, is_rwo, StorageClassInfo, DiscoveryError, list_failed,
  select_best_storage_class,
}
use aitrigram.Storage.Backend.{NodeAffinity, hostname_label}
use aitrigram.Cluster.{
  ApiError, is_not_found, Reply, Env, M, pure, ask, ◌>>=◌, list_storage_classes, get_claim,
  create_claim, update_claim, delete_claim,
}
use aitrigram.Cluster.Objects.{PersistentVolumeClaim, claim_pending, VolumeMount, ClaimVolume}
use aitrigram.Library.{Library}

-- The provider keeps a pointer to the repository that it was made for.
pub record StorageClassProvider : Type 0 where
  pub repository : ModelRepository
  pub storage_size : String
  pub storage_class : String
  pub mount_path : String
  pub pvc_name : String
  pub info : StorageClassInfo

abbrev pub default_model_storage_path : String
default_model_storage_path = "/data/models"

abbrev pub storage_protection_finalizer : String
storage_protection_finalizer =
    "modelrepository.aitrigram.cliver-project.github.io/storage-protection"

unfoldable pub get_or_default_mount_path : String → String
get_or_default_mount_path path = if is_blank path then default_model_storage_path else path

unfoldable pub new_storage_class_provider :
    ModelRepository → StorageClassInfo → StorageClassProvider
unfolding get_or_default_mount_path
new_storage_class_provider repo info = record {
  repository = repo;
  storage_size = repo.spec.storage.size;
  storage_class = repo.spec.storage.storage_class;
  mount_path = get_or_default_mount_path repo.spec.storage.mount_path;
  pvc_name = concat repo.name "-storage";
  info = info;
}

pub data ProviderError : Type 0 where
  size_required : ProviderError
  selection_failed : DiscoveryError → ProviderError

listed {ℓ} : {A : Type ℓ} → Reply A → Result DiscoveryError A
listed (ok items) = ok items
listed (err e) = err list_failed

selected :
    ModelRepository
    → Result DiscoveryError StorageClassInfo
    → Result ProviderError StorageClassProvider
selected repo (ok info) = ok (new_storage_class_provider repo info)
selected repo (err e) = err (selection_failed e)

-- ProviderFactory.CreateProvider
unfoldable pub create_provider : ModelRepository → M (Result ProviderError StorageClassProvider)
unfolding listed selected
create_provider repo = if is_blank repo.spec.storage.size then pure (err size_required) else do
  classes ← ask list_storage_classes (λ env h. env.storage_classes h)
  pure (selected repo (select_best_storage_class (listed classes) repo.spec.storage.storage_class))

pub data StorageError : Type 0 where
  size_missing size_invalid panics : StorageError
  check_failed create_failed finalizer_failed delete_failed : ApiError → StorageError

unfoldable pub validate_config : Library → StorageClassProvider → Result StorageError (Unit {0})
validate_config lib p =
    if is_blank p.storage_size
    then err size_missing
    else if lib.parses p.storage_size
    then ok tt
    else err size_invalid

unfoldable pub prepare_download_volume : StorageClassProvider → ClaimVolume × VolumeMount
prepare_download_volume p = (
  record { name = "model-storage"; claim_name = p.pvc_name },
  record { name = "model-storage"; mount_path = p.mount_path },
)

-- The claim that `CreateStorage` builds, its finalizer added.
unfoldable pub claim_of : Library → StorageClassProvider → String → PersistentVolumeClaim
claim_of lib p namespace = record {
  name = bytes p.pvc_name;
  namespace = namespace;
  labels =
      ("app.kubernetes.io/name", "model-storage")
      ∷ ("app.kubernetes.io/managed-by", "aitrigram-operator")
      ∷ ("aitrigram.io/model-repo", p.repository.name)
      ∷ [];
  finalizers = lib.add_finalizer [] storage_protection_finalizer;
  access_modes = p.info.access_mode ∷ [];
  storage_class = if is_blank p.info.name then none else some p.info.name;
  requested = p.storage_size;
  volume_name = [];
  phase = claim_pending;
  capacity = none;
}

created : Reply (Unit {0}) → Result StorageError (Unit {0})
created (ok _) = ok tt
created (err e) = err (create_failed e)

-- A claim that is there is left as it is.
create_if_missing :
    PersistentVolumeClaim → Reply PersistentVolumeClaim → M (Result StorageError (Unit {0}))
create_if_missing claim (ok existing) = pure (ok tt)
create_if_missing claim (err e) =
    if not (is_not_found e)
    then pure (err (check_failed e))
    else do reply ← ask (create_claim claim) (λ env h. env.written h); pure (created reply)

unfoldable pub create_storage :
    Library → StorageClassProvider → String → M (Result StorageError (Unit {0}))
unfolding create_if_missing created claim_of
create_storage lib p namespace = if not (lib.parses p.storage_size) then pure (err panics) else do
  existing ← ask (get_claim namespace (bytes p.pvc_name)) (λ env h. env.claim h)
  create_if_missing (claim_of lib p namespace) existing

deleted : Reply (Unit {0}) → Result StorageError (Unit {0})
deleted (ok _) = ok tt
deleted (err e) = if is_not_found e then ok tt else err (delete_failed e)

delete_pvc : StorageClassProvider → String → M (Result StorageError (Unit {0}))
delete_pvc p namespace = do
  reply ← ask (delete_claim namespace (bytes p.pvc_name)) (λ env h. env.written h)
  pure (deleted reply)

after_update : StorageClassProvider → String → Reply (Unit {0}) → M (Result StorageError (Unit {0}))
after_update p namespace (ok _) = delete_pvc p namespace
after_update p namespace (err e) = pure (err (finalizer_failed e))

-- The finalizer is removed from a claim that could be read; any other goes to the deletion at once.
release :
    Library
    → StorageClassProvider
    → String
    → Reply PersistentVolumeClaim
    → M (Result StorageError (Unit {0}))
release lib p namespace (err e) = delete_pvc p namespace
release lib p namespace (ok existing) = do
  let kept = lib.remove_finalizer existing.finalizers storage_protection_finalizer
  reply ← ask (update_claim (record existing { finalizers = kept })) (λ env h. env.written h)
  after_update p namespace reply

unfoldable pub cleanup :
    Library → StorageClassProvider → String → M (Result StorageError (Unit {0}))
unfolding release after_update delete_pvc deleted
cleanup lib p namespace = do
  existing ← ask (get_claim namespace (bytes p.pvc_name)) (λ env h. env.claim h)
  release lib p namespace existing

unfoldable pub is_shared : StorageClassProvider → Bool
is_shared p = is_rwx p.info.access_mode

bound : Option StorageStatus → NodeAffinity
bound none = none
bound (some status) =
    if is_blank status.bound_node_name
    then none
    else some (
        (record { key = hostname_label; operator = "In"; values = status.bound_node_name ∷ [] }
          ∷ [])
        ∷ [])

-- The bound node, for storage that one node can write.
unfoldable pub get_node_affinity : StorageClassProvider → NodeAffinity
unfolding bound
get_node_affinity p = if is_rwo p.info.access_mode then bound p.repository.status.storage else none
