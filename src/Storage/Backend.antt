-- ===== src/Storage/Backend.antt =====
-- The backend of a bound volume, as recorded in a ModelRepository's status
-- (internal/controller/storage/storage_sc.go: `extractBackendFromPV`, `extractNodeNameFromPV`).
use aitrigram.Base.{
  String, List, [], ◌∷◌, Bool, ◌&&◌, Option, none, some, if◌then◌else◌, ◌==◌, Map, lookup, insert,
  concat,
}
use aitrigram.Api.Repository.{BackendReference}

-- corev1.PersistentVolumeSource, of which the API server admits exactly one member. The last
-- argument of three of them is the flag ReadOnly. `other` is a source that the code does not know.
pub data VolumeSource : Type 0 where
  nfs : (server path : String) → Bool → VolumeSource
  csi : (driver handle : String) → Map String → Bool → VolumeSource
  aws_elastic_block_store : (volume_id fs_type : String) → VolumeSource
  gce_persistent_disk : (pd_name fs_type : String) → VolumeSource
  azure_disk : (disk_name disk_uri : String) → VolumeSource
  ceph_fs : (monitors : List String) (path : String) → Bool → VolumeSource
  glusterfs : (endpoints path : String) → VolumeSource
  host_path : String → VolumeSource
  other : VolumeSource

pub record NodeSelectorRequirement : Type 0 where
  pub key : String
  pub operator : String
  pub values : List String

-- The terms of spec.nodeAffinity.required, `none` where one of the two is nil.
abbrev pub NodeAffinity : Type 0
NodeAffinity = Option (List (List NodeSelectorRequirement))

pub record PersistentVolume : Type 0 where
  pub name : String
  pub source : VolumeSource
  pub node_affinity : NodeAffinity

abbrev pub hostname_label : String
hostname_label = "kubernetes.io/hostname"

-- The first value, if there is one; else the search goes on.
abbrev first_or : Option String → List String → Option String
first_or rest [] = rest
first_or rest (v ∷ _) = some v

-- for _, expr := range term.MatchExpressions
name_in_term : List NodeSelectorRequirement → Option String
name_in_term [] = none
name_in_term (expr ∷ exprs) =
    if expr.key == hostname_label && expr.operator == "In"
    then first_or (name_in_term exprs) expr.values
    else name_in_term exprs

name_in_terms : List (List NodeSelectorRequirement) → String
name_in_terms [] = ""
name_in_terms (term ∷ terms) = elim (name_in_term term) [
  | none ↦ name_in_terms terms
  | some name ↦ name
]

unfoldable pub extract_node_name_from_pv : PersistentVolume → String
unfolding name_in_terms name_in_term
extract_node_name_from_pv pv = elim pv.node_affinity [
  | none ↦ ""
  | some terms ↦ name_in_terms terms
]

abbrev pub backend_type_nfs : String
backend_type_nfs = "nfs"

abbrev pub backend_type_ceph_fs : String
backend_type_ceph_fs = "cephfs"

abbrev pub backend_type_longhorn : String
backend_type_longhorn = "longhorn"

abbrev pub backend_type_csi : String
backend_type_csi = "csi"

abbrev pub backend_type_host_path : String
backend_type_host_path = "hostpath"

-- The entries that let an engine find the claim.
abbrev claim_details : String → String → Map String
claim_details pvc_name namespace = ("pvcName", pvc_name) ∷ ("pvcNamespace", namespace) ∷ []

-- for k, v := range pv.Spec.CSI.VolumeAttributes { details["csi."+k] = v }
unfoldable pub insert_attributes : Map String → Map String → Map String
insert_attributes [] details = details
insert_attributes ((k, v) ∷ attributes) details =
    insert_attributes attributes (insert (concat "csi." k) v details)

-- The server and the share of the NFS driver, if the attributes have both.
nfs_export : Map String → Map String → Map String
nfs_export attributes details = elim (lookup "server" attributes) [
  | none ↦ details
  | some server ↦ elim (lookup "share" attributes) [
    | none ↦ details
    | some share ↦ insert "exportPath" share (
        insert "server" server
          (insert "filesystemID" (concat "nfs://" (concat server share)) details))
  ]
]

csi_backend : String → String → Map String → Map String → BackendReference
csi_backend driver handle attributes details =
    if driver == "nfs.csi.k8s.io"
    then record { type = backend_type_nfs; details = nfs_export attributes details }
    else if driver == "cephfs.csi.ceph.com"
    then record {
      type = backend_type_ceph_fs;
      details = insert "filesystemID" (concat "ceph://" handle) details;
    }
    else if driver == "driver.longhorn.io"
    then record { type = backend_type_longhorn; details = details }
    else record { type = backend_type_csi; details = details }

csi_details : String → String → String → Map String → Map String → Map String
csi_details sub_path driver handle attributes claim =
    insert_attributes attributes
      (("driver", driver) ∷ ("volumeID", handle) ∷ ("subPath", sub_path) ∷ claim)

abbrev head_or_blank : List String → String
head_or_blank [] = ""
head_or_blank (s ∷ _) = s

-- `none` is the error for a source that is not known.
pub backend_of_source : String → Map String → VolumeSource → Option BackendReference
backend_of_source sub_path claim (nfs server path _) = some (record {
  type = backend_type_nfs;
  details =
      ("filesystemID", concat "nfs://" (concat server path))
      ∷ ("server", server)
      ∷ ("exportPath", path)
      ∷ ("subPath", sub_path)
      ∷ claim;
})
backend_of_source sub_path claim (csi driver handle attributes _) =
    some
      (csi_backend driver handle attributes (csi_details sub_path driver handle attributes claim))
backend_of_source sub_path claim (aws_elastic_block_store volume_id fs_type) =
    some (record { type = "ebs"; details = ("volumeID", volume_id) ∷ ("fsType", fs_type) ∷ claim })
backend_of_source sub_path claim (gce_persistent_disk pd_name fs_type) =
    some (record { type = "gce-pd"; details = ("pdName", pd_name) ∷ ("fsType", fs_type) ∷ claim })
backend_of_source sub_path claim (azure_disk disk_name disk_uri) = some (record {
  type = "azure-disk";
  details = ("diskName", disk_name) ∷ ("diskURI", disk_uri) ∷ claim;
})
backend_of_source sub_path claim (ceph_fs monitors path _) = some (record {
  type = backend_type_ceph_fs;
  details =
      ("filesystemID", concat "ceph://" (concat (head_or_blank monitors) path))
      ∷ ("monitors", head_or_blank monitors)
      ∷ ("path", path)
      ∷ ("subPath", sub_path)
      ∷ claim;
})
backend_of_source sub_path claim (glusterfs endpoints path) = some (record {
  type = "glusterfs";
  details =
      ("filesystemID", concat "gluster://" (concat endpoints (concat "/" path)))
      ∷ ("endpoints", endpoints)
      ∷ ("path", path)
      ∷ ("subPath", sub_path)
      ∷ claim;
})
backend_of_source sub_path claim (host_path path) =
    some (record { type = backend_type_host_path; details = ("path", path) ∷ claim })
backend_of_source sub_path claim other = none

-- The arguments are the repository's name, the claim's name and its namespace.
unfoldable pub extract_backend_from_pv :
    String → String → String → PersistentVolume → Option BackendReference
unfolding backend_of_source csi_backend csi_details nfs_export
extract_backend_from_pv repo pvc_name namespace pv =
    backend_of_source (concat "/modelrepositories/" repo) (claim_details pvc_name namespace)
      pv.source
