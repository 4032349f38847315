-- ===== src/Provider/Keeps.antt =====
-- Calls that leave the claims of the cluster as they are, and the provider's operations that make no
-- others.
use aitrigram.Base.{String}
use aitrigram.Base.Results.{ok, err}
use aitrigram.Api.Repository.{ModelRepository}
use aitrigram.Cluster.{Call, update_claim, delete_claim, Reply}
use aitrigram.Cluster.Objects.{PersistentVolumeClaim}
use aitrigram.Cluster.Issues.{Issues, issues_rules}
use aitrigram.Library.{Library}
use aitrigram.Provider.{StorageClassProvider, create_provider, create_if_missing, create_storage}

-- A call that neither changes nor deletes a claim.
abbrev pub IsKeeping : Call → Type 0
IsKeeping (update_claim _) = ⊥
IsKeeping (delete_claim _ _) = ⊥
IsKeeping _ = Unit

pub create_provider_keeps : (repo : ModelRepository) → Issues IsKeeping (create_provider repo)
unfolding create_provider
create_provider_keeps repo = search (issues_rules, tt)

create_if_missing_keeps :
    (claim : PersistentVolumeClaim) (found : Reply PersistentVolumeClaim)
    → Issues IsKeeping (create_if_missing claim found)
unfolding create_if_missing
create_if_missing_keeps claim (ok existing) = search issues_rules
create_if_missing_keeps claim (err e) = search (issues_rules, tt)

pub create_storage_keeps :
    (lib : Library) (p : StorageClassProvider) (namespace : String)
    → Issues IsKeeping (create_storage lib p namespace)
unfolding create_storage
create_storage_keeps lib p namespace = search (issues_rules, create_if_missing_keeps, tt)
