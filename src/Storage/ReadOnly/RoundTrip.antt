-- ===== src/Storage/ReadOnly/RoundTrip.antt =====
-- Which volumes survive the way from the repository's claim to the engine's: what is recorded by
-- `extractBackendFromPV` and rebuilt by `buildReadOnlyPVSpec`.
use aitrigram.Base.{
  String, ◌≡◌, refl, sym, ◌≢◌, inl, inr, [], ◌∷◌, Bool, true, none, some, arith, Bool-cases, eq_iff,
  Map, lookup, concat,
}
use aitrigram.Base.Results.{ok, err, bind-eq-ok, ok-ne-err}
use aitrigram.Api.Repository.{BackendReference, StorageStatus}
use aitrigram.Storage.Discovery.{read_only_many}
use aitrigram.Storage.Backend.{
  VolumeSource, nfs, csi, ceph_fs, aws_elastic_block_store, gce_persistent_disk, azure_disk,
  glusterfs, backend_of_source, PersistentVolume, extract_backend_from_pv,
}
use aitrigram.Storage.ReadOnly.{
  PersistentVolumeSpec, BuildError, unsupported_backend, spec_of, capacity_of, read_only_source,
  build_read_only_pv_spec, Sourced,
}

-- The ways in which a source lets nothing be written.
abbrev pub IsReadOnly : VolumeSource → Type 0
IsReadOnly (nfs _ _ ro) = ro ≡ true
IsReadOnly (csi _ _ _ ro) = ro ≡ true
IsReadOnly (ceph_fs _ _ ro) = ro ≡ true
IsReadOnly _ = Unit

read_only_source-IsReadOnly :
    (details : Map String) (type node : String) (built : Sourced)
    → read_only_source details type node ≡ ok built
    → IsReadOnly built.0
unfolding read_only_source
read_only_source-IsReadOnly details type node (source, affinity) h = ground arith

-- The sources that are recorded and never rebuilt.
abbrev pub IsUnmirrored : VolumeSource → Type 0
IsUnmirrored (aws_elastic_block_store _ _) = Unit
IsUnmirrored (gce_persistent_disk _ _) = Unit
IsUnmirrored (azure_disk _ _) = Unit
IsUnmirrored (glusterfs _ _) = Unit
IsUnmirrored _ = ⊥

module _ (parses : String → Bool) where
  -- Whatever was recorded, a volume that is built is for read-only access by many nodes, its source
  -- is flagged read-only where it has such a flag, and its capacity is a quantity.
  pub build_read_only_pv_spec-IsReadOnly :
      (backend : BackendReference) (status : StorageStatus) (spec : PersistentVolumeSpec)
      → build_read_only_pv_spec parses backend status ≡ ok spec
      → (spec.access_modes ≡ read_only_many ∷ [])
        × IsReadOnly spec.source
        × (parses spec.capacity ≡ true)
  unfolding build_read_only_pv_spec
  build_read_only_pv_spec-IsReadOnly backend status spec h =
      elim (Bool-cases (parses (capacity_of status))) [
        | inr bad ↦ absurd (ok-ne-err (sym (rw bad at h)))
        | inl good ↦
            let (sourced, e, done) =
              bind-eq-ok (read_only_source backend.details backend.type status.bound_node_name)
                (λ sourced. ok (spec_of (capacity_of status) sourced)) (rw good at h) in
            let same : spec_of (capacity_of status) sourced ≡ spec = cc in
            rw (← same) (
              refl,
              read_only_source-IsReadOnly backend.details backend.type status.bound_node_name
                  sourced e,
              good,
            )
      ]

  -- The spec around a source that was found.
  pub build_read_only_pv_spec-eq-ok :
      (backend : BackendReference) (status : StorageStatus) (sourced : Sourced)
      → parses (capacity_of status) ≡ true
      → read_only_source backend.details backend.type status.bound_node_name ≡ ok sourced
      → build_read_only_pv_spec parses backend status ≡ ok (spec_of (capacity_of status) sourced)
  unfolding build_read_only_pv_spec
  build_read_only_pv_spec-eq-ok backend status sourced good e = rw (good, e)

  pub build_read_only_pv_spec-eq-err :
      (backend : BackendReference) (status : StorageStatus) {why : BuildError}
      → parses (capacity_of status) ≡ true
      → read_only_source backend.details backend.type status.bound_node_name ≡ err why
      → build_read_only_pv_spec parses backend status ≡ err why
  unfolding build_read_only_pv_spec
  build_read_only_pv_spec-eq-err backend status good e = rw (good, e)

  module _ (repo pvc namespace : String) (pv : PersistentVolume) (status : StorageStatus) where
    -- What the two functions make of a volume, one after the other.
    abbrev pub Mirrors : VolumeSource → Type 0
    Mirrors source =
        (backend : BackendReference) × (spec : PersistentVolumeSpec) × (extract_backend_from_pv repo
            pvc namespace pv
          ≡ some backend)
        × (build_read_only_pv_spec parses backend status ≡ ok spec)
        × (spec.source ≡ source)

    -- An NFS volume whose server and path are not empty is recorded and then built again, if the
    -- recorded capacity is a quantity: with the same server, the same path and the read-only flag.
    pub nfs_mirrored :
        (server path : String) (ro : Bool)
        → pv.source ≡ nfs server path ro
        → server ≢ ""
        → path ≢ ""
        → parses (capacity_of status) ≡ true
        → Mirrors (nfs server path true)
    unfolding extract_backend_from_pv read_only_source lookup
    nfs_mirrored server path ro e s p good = rw e (
      _,
      _,
      refl,
      build_read_only_pv_spec-eq-ok _ status (nfs server path true, none) good
          (ground (arith, eq_iff server "", eq_iff path "")),
      refl,
    )

    -- What the two functions answer where the second refuses.
    abbrev pub IsRefused : VolumeSource → Type 0
    IsRefused source =
        (backend : BackendReference) × (backend_of_source (concat "/modelrepositories/" repo)
            (("pvcName", pvc) ∷ ("pvcNamespace", namespace) ∷ []) source
          ≡ some backend)
        × (build_read_only_pv_spec parses backend status ≡ err unsupported_backend)

    refused :
        (source : VolumeSource)
        → IsUnmirrored source
        → parses (capacity_of status) ≡ true
        → IsRefused source
    unfolding extract_backend_from_pv read_only_source
    refused (aws_elastic_block_store v t) h good =
        (_, refl, build_read_only_pv_spec-eq-err _ status good refl)
    refused (gce_persistent_disk v t) h good =
        (_, refl, build_read_only_pv_spec-eq-err _ status good refl)
    refused (azure_disk v t) h good = (_, refl, build_read_only_pv_spec-eq-err _ status good refl)
    refused (glusterfs v t) h good = (_, refl, build_read_only_pv_spec-eq-err _ status good refl)
    refused (nfs _ _ _) h good = absurd h
    refused _ h good = absurd h

    -- A disk of one of three cloud providers and a GlusterFS volume are recorded as a backend from
    -- which, if the recorded capacity is a quantity, building the read-only volume fails as not
    -- supported.
    pub unmirrored_refused :
        IsUnmirrored pv.source
        → parses (capacity_of status) ≡ true
        → (backend : BackendReference) × (extract_backend_from_pv repo pvc namespace pv
            ≡ some backend)
          × (build_read_only_pv_spec parses backend status ≡ err unsupported_backend)
    unfolding extract_backend_from_pv
    unmirrored_refused h good = refused pv.source h good
