-- ===== src/Provider/Status/Keeps.antt =====
-- Reading the status of a storage leaves the claims as they are.
use aitrigram.Base.{String}
use aitrigram.Base.Results.{ok, err}
use aitrigram.Cluster.{Reply}
use aitrigram.Cluster.Objects.{PersistentVolumeClaim}
use aitrigram.Cluster.Issues.{Issues, issues_rules}
use aitrigram.Provider.{StorageClassProvider}
use aitrigram.Provider.Keeps.{IsKeeping}
use aitrigram.Provider.Status.{from_claim, get_storage_status}

from_claim_keeps :
    (p : StorageClassProvider) (namespace : String) (claim : Reply PersistentVolumeClaim)
    → Issues IsKeeping (from_claim p namespace claim)
unfolding from_claim
from_claim_keeps p namespace (err e) = search issues_rules
from_claim_keeps p namespace (ok claim) = search (issues_rules, tt)

pub get_storage_status_keeps :
    (p : StorageClassProvider) (namespace : String)
    → Issues IsKeeping (get_storage_status p namespace)
unfolding get_storage_status
get_storage_status_keeps p namespace = search (issues_rules, from_claim_keeps, tt)
