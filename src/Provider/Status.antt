-- ===== src/Provider/Status.antt =====
-- `GetStorageStatus` of storage_sc.go: what is recorded of a claim and of the volume it is bound to.
pub mod Keeps
pub mod Pinned
use aitrigram.Base.{
  String, Bool, true, false, not, ◌||◌, Option, none, some, if◌then◌else◌, bytes, is_blank,
  is_empty,
}
use aitrigram.Base.Results.{Result, ok, err}
use aitrigram.Api.Repository.{StorageStatus, BackendReference}
use aitrigram.Storage.Discovery.{access_mode_text, is_rwo}
use aitrigram.Storage.Backend.{PersistentVolume, extract_node_name_from_pv, extract_backend_from_pv}
use aitrigram.Cluster.{ApiError, Reply, M, pure, ask, ◌>>=◌, get_claim, get_volume}
use aitrigram.Cluster.Objects.{PersistentVolumeClaim, ClaimPhase, claim_bound}
use aitrigram.Provider.{StorageClassProvider}

pub data StatusError : Type 0 where
  claim_failed volume_failed : ApiError → StatusError
  not_bound unknown_backend : StatusError

abbrev is_bound : ClaimPhase → Bool
is_bound claim_bound = true
is_bound _ = false

text_or_blank : Option String → String
text_or_blank none = ""
text_or_blank (some t) = t

-- The status of a bound claim; its node is recorded for storage that one node can write.
status_of :
    StorageClassProvider
    → PersistentVolumeClaim
    → PersistentVolume
    → BackendReference
    → StorageStatus
status_of p claim pv backend = record {
  storage_class = p.info.name;
  access_mode = access_mode_text p.info.access_mode;
  volume_mode = "Filesystem";
  backend_ref = some backend;
  bound_node_name = if is_rwo p.info.access_mode then extract_node_name_from_pv pv else "";
  capacity = text_or_blank claim.capacity;
}

with_backend :
    StorageClassProvider
    → PersistentVolumeClaim
    → PersistentVolume
    → Option BackendReference
    → Result StatusError StorageStatus
with_backend p claim pv none = err unknown_backend
with_backend p claim pv (some backend) = ok (status_of p claim pv backend)

from_volume :
    StorageClassProvider
    → String
    → PersistentVolumeClaim
    → Reply PersistentVolume
    → Result StatusError StorageStatus
from_volume p namespace claim (err e) = err (volume_failed e)
from_volume p namespace claim (ok pv) =
    with_backend p claim pv (extract_backend_from_pv p.repository.name p.pvc_name namespace pv)

from_claim :
    StorageClassProvider
    → String
    → Reply PersistentVolumeClaim
    → M (Result StatusError StorageStatus)
from_claim p namespace (err e) = pure (err (claim_failed e))
from_claim p namespace (ok claim) =
    if not (is_bound claim.phase) || is_empty claim.volume_name then pure (err not_bound) else do
      reply ← ask (get_volume claim.volume_name) (λ env h. env.volume h)
      pure (from_volume p namespace claim reply)

unfoldable pub get_storage_status :
    StorageClassProvider → String → M (Result StatusError StorageStatus)
unfolding from_claim from_volume with_backend status_of text_or_blank
get_storage_status p namespace = do
  reply ← ask (get_claim namespace (bytes p.pvc_name)) (λ env h. env.claim h)
  from_claim p namespace reply
