-- ===== src/Storage/ReadOnly/Csi.antt =====
-- CSI volumes on the way from the repository's claim to the engine's.
use aitrigram.Base.{
  String, ◌≡◌, refl, ◌∙◌, ◌≢◌, ◌⊎◌, inl, inr, [], ◌∷◌, Bool, true, none, some, arith, Bool-cases,
  if◌then◌else◌, ◌==◌, eq_iff, Map, lookup, insert, lookup-insert, HasUniqueKeys, concat,
  strip_prefix,
}
use aitrigram.Base.Results.{ok, err}
use aitrigram.Api.Repository.{BackendReference, StorageStatus}
use aitrigram.Storage.Backend.{csi, PersistentVolume, insert_attributes, extract_backend_from_pv}
use aitrigram.Storage.ReadOnly.{
  PersistentVolumeSpec, missing_detail, capacity_of, rebuild_attributes, read_only_source,
  build_read_only_pv_spec,
}
use aitrigram.Storage.ReadOnly.Attributes.{
  csi_key, key_ne_of_foreign, lookup-insert_attributes_ne, lookup-rebuild_attributes,
}
use aitrigram.Storage.ReadOnly.RoundTrip.{
  build_read_only_pv_spec-eq-ok, build_read_only_pv_spec-eq-err,
}

-- The source that is rebuilt from details with a driver and a handle.
read_only_source-csi :
    (m : Map String) (driver handle type node : String)
    → (type ≡ "longhorn") ⊎ (type ≡ "csi")
    → lookup "driver" m ≡ some driver
    → lookup "volumeID" m ≡ some handle
    → driver ≢ ""
    → handle ≢ ""
    → read_only_source m type node ≡ ok (csi driver handle (rebuild_attributes m) true, none)
unfolding read_only_source
read_only_source-csi m driver handle type node (inl e) p q d h =
    rw e (ground (arith, eq_iff driver "", eq_iff handle ""))
read_only_source-csi m driver handle type node (inr e) p q d h =
    rw e (ground (arith, eq_iff driver "", eq_iff handle ""))

read_only_source-ceph_fs :
    (m : Map String) (node : String)
    → lookup "monitors" m ≡ none
    → read_only_source m "cephfs" node ≡ err missing_detail
unfolding read_only_source
read_only_source-ceph_fs m node p = rw p

abbrev base_details : String → String → String → Map String → Map String
base_details sub_path driver handle claim =
    ("driver", driver) ∷ ("volumeID", handle) ∷ ("subPath", sub_path) ∷ claim

module _ (sub_path driver handle pvc namespace : String) (attributes : Map String) where
  abbrev base : Map String
  base = base_details sub_path driver handle (("pvcName", pvc) ∷ ("pvcNamespace", namespace) ∷ [])

  abbrev details : Map String
  details = insert_attributes attributes base

  base-HasUniqueKeys : HasUniqueKeys base
  unfolding lookup
  base-HasUniqueKeys = (refl, (refl, (refl, (refl, (refl, tt)))))

  lookup-base : (k : String) → lookup (csi_key k) base ≡ none
  unfolding lookup strip_prefix
  lookup-base k = rw (
    key_ne_of_foreign "driver" k refl,
    key_ne_of_foreign "volumeID" k refl,
    key_ne_of_foreign "subPath" k refl,
    key_ne_of_foreign "pvcName" k refl,
    key_ne_of_foreign "pvcNamespace" k refl,
  )

  driver_kept : lookup "driver" details ≡ some driver
  unfolding lookup strip_prefix
  driver_kept = lookup-insert_attributes_ne "driver" attributes base refl ∙ refl

  handle_kept : lookup "volumeID" details ≡ some handle
  unfolding lookup strip_prefix
  handle_kept = lookup-insert_attributes_ne "volumeID" attributes base refl ∙ refl

  no_monitors : lookup "monitors" details ≡ none
  unfolding lookup strip_prefix
  no_monitors = lookup-insert_attributes_ne "monitors" attributes base refl ∙ refl

module _ (parses : String → Bool) (repo pvc namespace : String) (pv : PersistentVolume)
    (status : StorageStatus) (driver handle : String) (attributes : Map String) (ro : Bool) where
  abbrev kind : String
  kind = if driver == "driver.longhorn.io" then "longhorn" else "csi"

  kind-cases : (kind ≡ "longhorn") ⊎ (kind ≡ "csi")
  kind-cases = elim (Bool-cases (driver == "driver.longhorn.io")) [
    | inl e ↦ inl (rw e)
    | inr e ↦ inr (rw e)
  ]

  extracted :
      pv.source ≡ csi driver handle attributes ro
      → driver ≢ "nfs.csi.k8s.io"
      → driver ≢ "cephfs.csi.ceph.com"
      → extract_backend_from_pv repo pvc namespace pv
        ≡ some (record {
          type = kind;
          details =
              details (concat "/modelrepositories/" repo) driver handle pvc namespace attributes;
        })
  unfolding extract_backend_from_pv
  extracted e not_nfs not_ceph =
      rw e (ground (arith, eq_iff driver "nfs.csi.k8s.io", eq_iff driver "cephfs.csi.ceph.com"))

  -- A CSI volume whose driver and handle are not empty, of any driver but those for NFS and CephFS,
  -- is recorded and then built again, if its attributes have unique keys and the recorded capacity
  -- is a quantity: with the same driver, the same handle, the read-only flag, and at every key the
  -- same attribute.
  pub csi_mirrored :
      pv.source ≡ csi driver handle attributes ro
      → driver ≢ ""
      → driver ≢ "nfs.csi.k8s.io"
      → driver ≢ "cephfs.csi.ceph.com"
      → handle ≢ ""
      → HasUniqueKeys attributes
      → parses (capacity_of status) ≡ true
      → (backend : BackendReference) × (spec : PersistentVolumeSpec) × (rebuilt : Map String)
        × (extract_backend_from_pv repo pvc namespace pv ≡ some backend)
        × (build_read_only_pv_spec parses backend status ≡ ok spec)
        × (spec.source ≡ csi driver handle rebuilt true)
        × ((k : String) → lookup k rebuilt ≡ lookup k attributes)
  csi_mirrored e d not_nfs not_ceph h u good =
      let m = details (concat "/modelrepositories/" repo) driver handle pvc namespace attributes in
      let b : BackendReference = record { type = kind; details = m } in
      (
        b,
        _,
        rebuild_attributes m,
        extracted e not_nfs not_ceph,
        build_read_only_pv_spec-eq-ok parses b status _ good (
            read_only_source-csi m driver handle kind status.bound_node_name kind-cases
              (driver_kept (concat "/modelrepositories/" repo) driver handle pvc namespace
                attributes)
              (handle_kept (concat "/modelrepositories/" repo) driver handle pvc namespace
                attributes)
              d h),
        refl,
        λ k.
            lookup-rebuild_attributes k attributes
              (base (concat "/modelrepositories/" repo) driver handle pvc namespace attributes) u
              (base-HasUniqueKeys (concat "/modelrepositories/" repo) driver handle pvc namespace
                attributes)
              (lookup-base (concat "/modelrepositories/" repo) driver handle pvc namespace
                attributes k),
      )

module _ (parses : String → Bool) (repo pvc namespace : String) (pv : PersistentVolume)
    (status : StorageStatus) (handle : String) (attributes : Map String) (ro : Bool) where
  abbrev ceph_details : Map String
  ceph_details = insert "filesystemID" (concat "ceph://" handle) (
      details (concat "/modelrepositories/" repo) "cephfs.csi.ceph.com" handle pvc namespace
        attributes)

  ceph_details-monitors : lookup "monitors" ceph_details ≡ none
  ceph_details-monitors =
      lookup-insert "filesystemID" "monitors" (concat "ceph://" handle) _
      ∙ no_monitors (concat "/modelrepositories/" repo) "cephfs.csi.ceph.com" handle pvc namespace
          attributes

  -- A volume of the driver cephfs.csi.ceph.com is recorded as a backend from which, if the recorded
  -- capacity is a quantity, building the read-only volume fails for a missing detail, whatever the
  -- handle and the attributes.
  pub ceph_fs_csi_refused :
      pv.source ≡ csi "cephfs.csi.ceph.com" handle attributes ro
      → parses (capacity_of status) ≡ true
      → (backend : BackendReference) × (extract_backend_from_pv repo pvc namespace pv
          ≡ some backend)
        × (build_read_only_pv_spec parses backend status ≡ err missing_detail)
  unfolding extract_backend_from_pv
  ceph_fs_csi_refused e good = rw e (
    record { type = "cephfs"; details = ceph_details },
    refl,
    build_read_only_pv_spec-eq-err parses (record { type = "cephfs"; details = ceph_details })
        status good
        (read_only_source-ceph_fs ceph_details status.bound_node_name ceph_details-monitors),
  )
