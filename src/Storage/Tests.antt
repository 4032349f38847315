-- ===== src/Storage/Tests.antt =====
-- Storage functions computed, and their theorems at concrete inputs.
use mathlib.Core.List.{Memᴰ}
use aitrigram.Base.{
  String, ◌≡◌, refl, ◌≢◌, ◌⊎◌, inl, [], ◌∷◌, map, Bool, true, false, none, some, arith, All, eq_iff,
  Map, lookup, HasUniqueKeys,
}
use aitrigram.Base.Results.{ok, err}
use aitrigram.Api.Repository.{BackendReference, StorageStatus}
use aitrigram.Storage.Discovery.{
  read_write_many, read_only_many, StorageClass, StorageClassInfo, categorize_storage_class,
  find_first, select_auto, select_by_name, not_found, discover_storage_classes,
  select_best_storage_class,
}
use aitrigram.Storage.Discovery.Choice.{
  IsPreferred, IsAuto, HasModeOfType, categorize_storage_class-mode, select_best_storage_class-auto,
  select_best_storage_class-named,
}
use aitrigram.Storage.Backend.{
  VolumeSource, nfs, csi, aws_elastic_block_store, PersistentVolume, extract_backend_from_pv,
  extract_node_name_from_pv,
}
use aitrigram.Storage.ReadOnly.{
  PersistentVolumeSpec, missing_detail, unsupported_backend, read_only_source,
  build_read_only_pv_spec,
}
use aitrigram.Storage.ReadOnly.RoundTrip.{
  IsReadOnly, Mirrors, build_read_only_pv_spec-IsReadOnly, nfs_mirrored, unmirrored_refused,
}
use aitrigram.Storage.ReadOnly.Csi.{csi_mirrored, ceph_fs_csi_refused}

abbrev standard : StorageClass
standard = record {
  name = "standard";
  provisioner = "rancher.io/local-path";
  annotations = ("storageclass.kubernetes.io/is-default-class", "true") ∷ [];
}

abbrev nfs_client : StorageClass
nfs_client = record {
  name = "nfs-client";
  provisioner = "cluster.local/NFS-subdir";
  annotations = [];
}

select_tests :
    (select_best_storage_class (ok (standard ∷ nfs_client ∷ [])) "auto"
      ≡ ok (record {
        name = "nfs-client";
        provisioner = "cluster.local/NFS-subdir";
        type = "nfs";
        access_mode = read_write_many;
        is_default = false;
      }))
    × (select_best_storage_class (ok (standard ∷ [])) "fast" ≡ err (not_found "fast"))
unfolding select_best_storage_class discover_storage_classes select_auto select_by_name find_first
    categorize_storage_class lookup
select_tests = (refl, refl)

categorize_storage_class-mode_example :
    HasModeOfType (
      (categorize_storage_class nfs_client).type,
      (categorize_storage_class nfs_client).access_mode,
    )
categorize_storage_class-mode_example = categorize_storage_class-mode nfs_client

select_best_storage_class-auto_example :
    (info : StorageClassInfo) × (select_best_storage_class (ok (standard ∷ nfs_client ∷ [])) "auto"
      ≡ ok info)
    × Memᴰ info (map categorize_storage_class (standard ∷ nfs_client ∷ []))
    × IsPreferred info (map categorize_storage_class (standard ∷ nfs_client ∷ []))
select_best_storage_class-auto_example =
    select_best_storage_class-auto standard (nfs_client ∷ []) "auto" (inl refl)

fast_is_named : ¬ IsAuto "fast"
fast_is_named h = ground (arith, eq_iff "fast" "auto", eq_iff "fast" "")

select_best_storage_class-named_example :
    ((select_best_storage_class (ok (standard ∷ [])) "fast" ≡ err (not_found "fast"))
      × All
          (λ (i : StorageClassInfo). i.name ≢ "fast")
          (map categorize_storage_class (standard ∷ [])))
    ⊎ ((info : StorageClassInfo) × (select_best_storage_class (ok (standard ∷ [])) "fast" ≡ ok info)
        × (info.name ≡ "fast")
        × Memᴰ info (map categorize_storage_class (standard ∷ [])))
select_best_storage_class-named_example =
    select_best_storage_class-named standard [] "fast" fast_is_named

abbrev any_text : String → Bool
any_text _ = true

abbrev status : StorageStatus
status = record {
  storage_class = "standard";
  access_mode = "ReadWriteMany";
  volume_mode = "Filesystem";
  backend_ref = none;
  bound_node_name = "";
  capacity = "5Gi";
}

abbrev volume : VolumeSource → PersistentVolume
volume source = record { name = "pv-1"; source = source; node_affinity = none }

abbrev export_details : BackendReference
export_details = record {
  type = "nfs";
  details = ("server", "10.0.0.1") ∷ ("exportPath", "/models") ∷ [];
}

abbrev export_spec : PersistentVolumeSpec
export_spec = record {
  capacity = "5Gi";
  access_modes = read_only_many ∷ [];
  source = nfs "10.0.0.1" "/models" true;
  node_affinity = none;
}

build_test : build_read_only_pv_spec any_text export_details status ≡ ok export_spec
unfolding build_read_only_pv_spec read_only_source lookup
build_test = refl

node_test :
    extract_node_name_from_pv (record {
      name = "pv-1";
      source = nfs "s" "/p" false;
      node_affinity = some (
          (record { key = "zone"; operator = "In"; values = "a" ∷ [] }
            ∷ record { key = "kubernetes.io/hostname"; operator = "In"; values = "node-1" ∷ [] }
            ∷ [])
          ∷ []);
    })
    ≡ "node-1"
unfolding extract_node_name_from_pv
node_test = refl

build_read_only_pv_spec-IsReadOnly_example :
    (export_spec.access_modes ≡ read_only_many ∷ [])
    × IsReadOnly export_spec.source
    × (any_text export_spec.capacity ≡ true)
build_read_only_pv_spec-IsReadOnly_example =
    build_read_only_pv_spec-IsReadOnly any_text export_details status export_spec build_test

server_not_blank : ◌≢◌ {A = String} "10.0.0.1" ""
server_not_blank e = ground (arith, eq_iff "10.0.0.1" "")

path_not_blank : ◌≢◌ {A = String} "/models" ""
path_not_blank e = ground (arith, eq_iff "/models" "")

nfs_mirrored_example :
    Mirrors any_text "llama" "llama-storage" "default"
      (volume (nfs "10.0.0.1" "/models" false))
      status
      (nfs "10.0.0.1" "/models" true)
nfs_mirrored_example =
    nfs_mirrored any_text "llama" "llama-storage" "default"
      (volume (nfs "10.0.0.1" "/models" false)) status "10.0.0.1" "/models" false refl
      server_not_blank path_not_blank refl

unmirrored_refused_example :
    (backend : BackendReference) × (extract_backend_from_pv "llama" "llama-storage" "default"
        (volume (aws_elastic_block_store "vol-1" "ext4"))
      ≡ some backend)
    × (build_read_only_pv_spec any_text backend status ≡ err unsupported_backend)
unmirrored_refused_example =
    unmirrored_refused any_text "llama" "llama-storage" "default"
      (volume (aws_elastic_block_store "vol-1" "ext4")) status tt refl

abbrev longhorn : String
longhorn = "driver.longhorn.io"

abbrev attributes : Map String
attributes = ("fsType", "ext4") ∷ ("share", "models") ∷ []

attributes-HasUniqueKeys : HasUniqueKeys attributes
unfolding lookup
attributes-HasUniqueKeys = (refl, (refl, tt))

driver_not_blank : longhorn ≢ ""
driver_not_blank e = ground (arith, eq_iff longhorn "")

driver_not_nfs : longhorn ≢ "nfs.csi.k8s.io"
driver_not_nfs e = ground (arith, eq_iff longhorn "nfs.csi.k8s.io")

driver_not_ceph : longhorn ≢ "cephfs.csi.ceph.com"
driver_not_ceph e = ground (arith, eq_iff longhorn "cephfs.csi.ceph.com")

handle_not_blank : ◌≢◌ {A = String} "pvc-1" ""
handle_not_blank e = ground (arith, eq_iff "pvc-1" "")

csi_mirrored_example :
    (backend : BackendReference) × (spec : PersistentVolumeSpec) × (rebuilt : Map String)
    × (extract_backend_from_pv "llama" "llama-storage" "default"
          (volume (csi longhorn "pvc-1" attributes false))
        ≡ some backend)
    × (build_read_only_pv_spec any_text backend status ≡ ok spec)
    × (spec.source ≡ csi longhorn "pvc-1" rebuilt true)
    × ((k : String) → lookup k rebuilt ≡ lookup k attributes)
csi_mirrored_example =
    csi_mirrored any_text "llama" "llama-storage" "default"
      (volume (csi longhorn "pvc-1" attributes false)) status longhorn "pvc-1" attributes false refl
      driver_not_blank driver_not_nfs driver_not_ceph handle_not_blank attributes-HasUniqueKeys refl

ceph_fs_csi_refused_example :
    (backend : BackendReference) × (extract_backend_from_pv "llama" "llama-storage" "default"
        (volume (csi "cephfs.csi.ceph.com" "pvc-1" attributes false))
      ≡ some backend)
    × (build_read_only_pv_spec any_text backend status ≡ err missing_detail)
ceph_fs_csi_refused_example =
    ceph_fs_csi_refused any_text "llama" "llama-storage" "default"
      (volume (csi "cephfs.csi.ceph.com" "pvc-1" attributes false)) status "pvc-1" attributes false
      refl refl
