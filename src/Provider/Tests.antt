-- ===== src/Provider/Tests.antt =====
-- The theorems about claims at concrete inputs.
use aitrigram.Base.{some, ◌≡◌, refl, ◌⊎◌, [], ◌∷◌, true, false, none, bytes}
use aitrigram.Base.Results.{ok, err}
use aitrigram.Api.Repository.{StorageStatus, unset, ModelRepository}
use aitrigram.Cluster.{get_volume, pure, ask, ◌>>=◌, ApiError, is_not_found, Env, History}
use aitrigram.Cluster.Sample.{bare}
use aitrigram.Cluster.Objects.{PersistentVolumeClaim, claim_bound}
use aitrigram.Library.Sample.{sample}
use aitrigram.Storage.Discovery.{StorageClassInfo, read_write_once}
use aitrigram.Provider.{
  StorageClassProvider, check_failed, create_failed, finalizer_failed, delete_failed,
  validate_config, create_storage, cleanup, get_node_affinity,
}
use aitrigram.Storage.Backend.{
  PersistentVolume, host_path, extract_backend_from_pv, extract_node_name_from_pv,
}
use aitrigram.Provider.Status.{get_storage_status}
use aitrigram.Provider.Status.Pinned.{pinned_node, get_storage_status_pins}
use aitrigram.Provider.Claims.{
  after_read, after_creation, after_release, after_deletion, create_storage_validated,
  cleanup_releases,
}

abbrev repo : ModelRepository
repo = record {
  metadata = record { name = "llama"; namespace = ""; deleting = false; finalizers = [] };
  spec = record {
    model_name = "llama";
    source = record {
      origin = "huggingface";
      model_id = "meta/llama";
      revision = "";
      revisions = [];
      hf_token_secret = "";
      hf_token_secret_key = "";
    };
    storage = record { size = "5Gi"; mount_path = ""; storage_class = "" };
    auto_download = true;
    download_image = "";
    download_scripts = "";
    delete_scripts = "";
    node_selector = [];
  };
  status = record {
    phase = unset;
    conditions = [];
    storage = none;
    available_revisions = [];
    referenced_engines = "";
  };
}

abbrev local_class : StorageClassInfo
local_class = record {
  name = "local";
  provisioner = "local";
  type = "local";
  access_mode = read_write_once;
  is_default = true;
}

abbrev provider : StorageClassProvider
provider = record {
  repository = repo;
  storage_size = "5Gi";
  storage_class = "";
  mount_path = "/data/models";
  pvc_name = "llama-storage";
  info = local_class;
}

abbrev claim : PersistentVolumeClaim
claim = record {
  name = bytes "llama-storage";
  namespace = "default";
  labels = [];
  finalizers = [];
  access_modes = read_write_once ∷ [];
  storage_class = none;
  requested = "5Gi";
  volume_name = bytes "pv-1";
  phase = claim_bound;
  capacity = none;
}

abbrev cluster : Env
cluster = record bare { repository = λ h. ok repo; claim = λ h. ok claim }

provider_validates : validate_config sample provider ≡ ok tt
unfolding validate_config
provider_validates = refl

abbrev read : History
read = after_read sample provider "default" cluster []

abbrev created : History
created = after_creation sample provider "default" cluster []

create_storage_validated_example :
    let run = create_storage sample provider "default" cluster [] in
    ((c : PersistentVolumeClaim) × (cluster.claim read ≡ ok c) × (run ≡ (ok tt, read)))
    ⊎ ((e : ApiError) × (cluster.claim read ≡ err e)
        × (is_not_found e ≡ true)
        × (((cluster.written created ≡ ok tt) × (run ≡ (ok tt, created)))
            ⊎ ((f : ApiError) × (cluster.written created ≡ err f)
                × (run ≡ (err (create_failed f), created)))))
    ⊎ ((e : ApiError) × (cluster.claim read ≡ err e)
        × (is_not_found e ≡ false)
        × (run ≡ (err (check_failed e), read)))
create_storage_validated_example =
    create_storage_validated sample provider "default" cluster [] provider_validates

abbrev released : History
released = after_release sample provider "default" cluster [] claim

abbrev deleted : History
deleted = after_deletion sample provider "default" cluster [] claim

cleanup_releases_example :
    let run = cleanup sample provider "default" cluster [] in
    ((e : ApiError) × (cluster.written released ≡ err e)
      × (run ≡ (err (finalizer_failed e), released)))
    ⊎ ((cluster.written released ≡ ok tt)
        × (run.1 ≡ deleted)
        × ((run.0 ≡ ok tt)
            ⊎ ((e : ApiError) × (cluster.written deleted ≡ err e)
                × (is_not_found e ≡ false)
                × (run.0 ≡ err (delete_failed e)))))
cleanup_releases_example = cleanup_releases sample provider "default" cluster [] claim refl

abbrev pv : PersistentVolume
pv = record {
  name = "pv-1";
  source = host_path "/data";
  node_affinity = some (
      (record { key = "kubernetes.io/hostname"; operator = "In"; values = "node-1" ∷ [] } ∷ [])
      ∷ []);
}

abbrev with_volume : Env
with_volume = record cluster { volume = λ h. ok pv }

abbrev recorded : StorageStatus
recorded = record {
  storage_class = "local";
  access_mode = "ReadWriteOnce";
  volume_mode = "Filesystem";
  backend_ref = extract_backend_from_pv "llama" "llama-storage" "default" pv;
  bound_node_name = "node-1";
  capacity = "";
}

status_test : (get_storage_status provider "default" with_volume []).0 ≡ ok recorded
unfolding get_storage_status ◌>>=◌ ask pure extract_backend_from_pv extract_node_name_from_pv
status_test = refl

abbrev later : StorageClassProvider
later = record provider {
  repository = record repo { status = record repo.status { storage = some recorded } };
}

get_storage_status_pins_example :
    (c : PersistentVolumeClaim) × (v : PersistentVolume) × (with_volume.claim read ≡ ok c)
    × (with_volume.volume (get_volume c.volume_name ∷ read) ≡ ok v)
    × (pinned_node (get_node_affinity later) v ≡ extract_node_name_from_pv v)
get_storage_status_pins_example =
    get_storage_status_pins provider later "default" with_volume [] recorded refl refl status_test
      refl
