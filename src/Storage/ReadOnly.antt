-- ===== src/Storage/ReadOnly.antt =====
-- The read-only volume of an engine, built from the recorded backend
-- (internal/controller/storage/llmengine_storage.go: `buildReadOnlyPVSpec`).
pub mod Attributes
pub mod RoundTrip
pub mod Csi
use aitrigram.Base.{
  String, List, [], ◌∷◌, Bool, true, ◌||◌, Option, none, some, if◌then◌else◌, ◌==◌, Map, lookup,
  insert, is_blank, strip_prefix,
}
use aitrigram.Base.Results.{Result, ok, err, ◌>>=◌, ◌>>◌, guard}
use aitrigram.Api.Repository.{BackendReference, StorageStatus}
use aitrigram.Storage.Discovery.{AccessMode, read_only_many}
use aitrigram.Storage.Backend.{
  VolumeSource, nfs, csi, ceph_fs, host_path, NodeAffinity, hostname_label, backend_type_nfs,
  backend_type_ceph_fs, backend_type_longhorn, backend_type_csi, backend_type_host_path,
}

pub record PersistentVolumeSpec : Type 0 where
  pub capacity : String
  pub access_modes : List AccessMode
  pub source : VolumeSource
  pub node_affinity : NodeAffinity

-- `panics` is resource.MustParse on a text that is no quantity.
pub data BuildError : Type 0 where
  panics missing_detail unsupported_backend : BuildError

abbrev value_or_blank : Option String → String
value_or_blank none = ""
value_or_blank (some v) = v

-- details[k], "" where there is none
abbrev pub detail : Map String → String → String
detail details k = value_or_blank (lookup k details)

-- The attributes of the entries whose key begins with "csi.".
rebuild_attributes_into : Map String → Map String → Map String
rebuild_attributes_into out [] = out
rebuild_attributes_into out ((k, v) ∷ details) = elim (strip_prefix "csi." k) [
  | none ↦ rebuild_attributes_into out details
  | some name ↦ rebuild_attributes_into (insert name v out) details
]

unfoldable pub rebuild_attributes : Map String → Map String
unfolding rebuild_attributes_into
rebuild_attributes details = rebuild_attributes_into [] details

abbrev bound_to : String → NodeAffinity
bound_to node =
    if is_blank node
    then none
    else some ((record { key = hostname_label; operator = "In"; values = node ∷ [] } ∷ []) ∷ [])

abbrev pub Sourced : Type 0
Sourced = VolumeSource × NodeAffinity

nfs_source : String → String → Result BuildError Sourced
nfs_source server path =
    if is_blank server || is_blank path then err missing_detail else ok (nfs server path true, none)

host_path_source : String → String → Result BuildError Sourced
host_path_source path node =
    if is_blank path then err missing_detail else ok (host_path path, bound_to node)

ceph_fs_source : String → String → Result BuildError Sourced
ceph_fs_source monitors path =
    if is_blank monitors then err missing_detail else ok (ceph_fs (monitors ∷ []) path true, none)

csi_source : String → String → Map String → Result BuildError Sourced
csi_source driver handle attributes =
    if is_blank driver || is_blank handle
    then err missing_detail
    else ok (csi driver handle attributes true, none)

-- The switch on the backend's type.
unfoldable pub read_only_source : Map String → String → String → Result BuildError Sourced
unfolding nfs_source host_path_source ceph_fs_source csi_source
read_only_source details type node =
    if type == backend_type_nfs
    then nfs_source (detail details "server") (detail details "exportPath")
    else if type == backend_type_host_path
    then host_path_source (detail details "path") node
    else if type == backend_type_ceph_fs
    then ceph_fs_source (detail details "monitors") (detail details "path")
    else if type == backend_type_longhorn || type == backend_type_csi
    then csi_source (detail details "driver") (detail details "volumeID")
        (rebuild_attributes details)
    else err unsupported_backend

-- The spec around a source; every volume is for read-only access by many nodes.
abbrev spec_of : String → Sourced → PersistentVolumeSpec
spec_of capacity (source, affinity) = record {
  capacity = capacity;
  access_modes = read_only_many ∷ [];
  source = source;
  node_affinity = affinity;
}

abbrev pub capacity_of : StorageStatus → String
capacity_of status = if is_blank status.capacity then "10Gi" else status.capacity

-- `parses` tells the texts that resource.ParseQuantity accepts. The capacity defaults to 10Gi, and
-- is parsed before the backend is looked at.
unfoldable pub build_read_only_pv_spec :
    (String → Bool) → BackendReference → StorageStatus → Result BuildError PersistentVolumeSpec
build_read_only_pv_spec parses backend status = do
  guard (parses (capacity_of status)) panics
  sourced ← read_only_source backend.details backend.type status.bound_node_name
  ok (spec_of (capacity_of status) sourced)
