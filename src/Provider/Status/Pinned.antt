-- ===== src/Provider/Status/Pinned.antt =====
-- The jobs of a repository whose storage one node can write run on the node of its volume.
use aitrigram.Base.{
  String, ◌≡◌, refl, sym, ◌∙◌, ◌∷◌, true, not, ◌||◌, Option, none, some, arith, eq_iff, inl, inr,
  Bool-cases, bytes, is_blank, is_empty,
}
use aitrigram.Base.Results.{ok, Result-cases, ok-ne-err}
use aitrigram.Api.Repository.{StorageStatus, BackendReference}
use aitrigram.Cluster.{get_claim, get_volume, Env, History, pure, ask, ◌>>=◌}
use aitrigram.Cluster.Objects.{PersistentVolumeClaim}
use aitrigram.Storage.Discovery.{is_rwo}
use aitrigram.Storage.Backend.{PersistentVolume, NodeAffinity, extract_node_name_from_pv}
use aitrigram.Provider.{StorageClassProvider, bound, get_node_affinity}
use aitrigram.Provider.Status.{
  is_bound, from_claim, from_volume, with_backend, status_of, get_storage_status,
}

status_of-node :
    (p : StorageClassProvider) (claim : PersistentVolumeClaim) (pv : PersistentVolume)
    (backend : BackendReference)
    → is_rwo p.info.access_mode ≡ true
    → (status_of p claim pv backend).bound_node_name ≡ extract_node_name_from_pv pv
unfolding status_of
status_of-node p claim pv backend rwo = ground arith

with_backend-node :
    (p : StorageClassProvider) (claim : PersistentVolumeClaim) (pv : PersistentVolume)
    (backend : Option BackendReference) (status : StorageStatus)
    → is_rwo p.info.access_mode ≡ true
    → with_backend p claim pv backend ≡ ok status
    → status.bound_node_name ≡ extract_node_name_from_pv pv
unfolding with_backend
with_backend-node p claim pv none status rwo h = absurd (ok-ne-err (sym h))
with_backend-node p claim pv (some backend) status rwo h =
    let same : status_of p claim pv backend ≡ status = cc in
    rw (← same) (status_of-node p claim pv backend rwo)

module _ (p : StorageClassProvider) (namespace : String) (env : Env) (h : History) where
  -- The volume that was read for the status.
  recorded :
      (status : StorageStatus)
      → is_rwo p.info.access_mode ≡ true
      → (get_storage_status p namespace env h).0 ≡ ok status
      → (claim : PersistentVolumeClaim) × (pv : PersistentVolume) × (env.claim
            (get_claim namespace (bytes p.pvc_name) ∷ h)
          ≡ ok claim)
        × (env.volume (get_volume claim.volume_name ∷ get_claim namespace (bytes p.pvc_name) ∷ h)
            ≡ ok pv)
        × (status.bound_node_name ≡ extract_node_name_from_pv pv)
  unfolding get_storage_status from_claim from_volume ◌>>=◌ pure ask
  recorded status rwo done =
      let k : History = get_claim namespace (bytes p.pvc_name) ∷ h in
      elim (Result-cases (env.claim k)) [
        | inr (e, lost) ↦ absurd (ok-ne-err (sym (rw lost at done)))
        | inl (claim, found) ↦
            elim (Bool-cases (not (is_bound claim.phase) || is_empty claim.volume_name)) [
              | inl loose ↦ absurd (ok-ne-err (sym (rw (found, loose) at done)))
              | inr tied ↦ elim (Result-cases (env.volume (get_volume claim.volume_name ∷ k))) [
                | inr (e, lost) ↦ absurd (ok-ne-err (sym (rw (found, tied, lost) at done)))
                | inl (pv, read) ↦ (
                  claim,
                  pv,
                  found,
                  read,
                  with_backend-node p claim pv _ status rwo (rw (found, tied, read) at done),
                )
              ]
            ]
      ]

-- The name of the node that an affinity asks for.
abbrev pub pinned_node : NodeAffinity → PersistentVolume → String
pinned_node affinity pv = extract_node_name_from_pv (record pv { node_affinity = affinity })

get_node_affinity-node :
    (q : StorageClassProvider) (status : StorageStatus) (pv : PersistentVolume)
    → is_rwo q.info.access_mode ≡ true
    → q.repository.status.storage ≡ some status
    → pinned_node (get_node_affinity q) pv ≡ status.bound_node_name
unfolding get_node_affinity bound extract_node_name_from_pv
get_node_affinity-node q status pv rwo known = elim (Bool-cases (is_blank status.bound_node_name)) [
  | inl blank ↦ rw (rwo, known, blank) (sym ((eq_iff status.bound_node_name "").0 blank))
  | inr named ↦ rw (rwo, known, named) refl
]

-- Where the storage can be written from one node only, and a status that was read from the cluster is
-- recorded in the repository of the provider, the affinity that a job gets names the same node, read
-- back by the same function, as the volume that the claim is bound to.
pub get_storage_status_pins :
    (p q : StorageClassProvider) (namespace : String) (env : Env) (h : History)
    (status : StorageStatus)
    → is_rwo p.info.access_mode ≡ true
    → is_rwo q.info.access_mode ≡ true
    → (get_storage_status p namespace env h).0 ≡ ok status
    → q.repository.status.storage ≡ some status
    → (claim : PersistentVolumeClaim) × (pv : PersistentVolume) × (env.claim
          (get_claim namespace (bytes p.pvc_name) ∷ h)
        ≡ ok claim)
      × (env.volume (get_volume claim.volume_name ∷ get_claim namespace (bytes p.pvc_name) ∷ h)
          ≡ ok pv)
      × (pinned_node (get_node_affinity q) pv ≡ extract_node_name_from_pv pv)
get_storage_status_pins p q namespace env h status rwo rwo' done known =
    let (claim, pv, found, read, node) = recorded p namespace env h status rwo done in
    (claim, pv, found, read, get_node_affinity-node q status pv rwo' known ∙ node)
