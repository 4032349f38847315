-- ===== src/Provider/Readiness.antt =====
-- `GetStatus` of internal/controller/storage/storage_sc.go: how far a repository's claim is, for the
-- eyes of a reader.
use aitrigram.Base.{String, Bool, true, false, Option, none, some, if◌then◌else◌, bytes, concat}
use aitrigram.Base.Results.{ok, err}
use aitrigram.Cluster.{ApiError, is_not_found, Reply, M, pure, ask, ◌>>=◌, get_claim}
use aitrigram.Cluster.Objects.{
  PersistentVolumeClaim, ClaimPhase, claim_pending, claim_bound, claim_lost,
}
use aitrigram.Provider.{StorageClassProvider}

-- storage.StorageStatus
pub record ProviderStatus : Type 0 where
  pub ready : Bool
  pub message : String
  pub bound_node_name : String
  pub capacity : String

is_ready_phase : ClaimPhase → Bool
is_ready_phase claim_bound = true
is_ready_phase claim_pending = false
is_ready_phase claim_lost = false

message_of : ClaimPhase → String
message_of claim_bound = "PVC is bound and ready"
message_of claim_pending = "PVC is pending, waiting for provisioning"
message_of claim_lost = "PVC is in Lost state"

capacity_or_blank : Option String → String
capacity_or_blank none = ""
capacity_or_blank (some c) = c

missing : String → ProviderStatus
missing message = record { ready = false; message = message; bound_node_name = ""; capacity = "" }

-- `text` is the text of an error.
status_or_missing : (text : ApiError → String) → Reply PersistentVolumeClaim → ProviderStatus
status_or_missing text (err e) =
    if is_not_found e
    then missing "PVC not created yet"
    else missing (concat "Failed to get PVC: " (text e))
status_or_missing text (ok claim) = record {
  ready = is_ready_phase claim.phase;
  message = message_of claim.phase;
  bound_node_name = "";
  capacity = capacity_or_blank claim.capacity;
}

unfoldable pub get_status :
    (text : ApiError → String) → StorageClassProvider → (namespace : String) → M ProviderStatus
unfolding status_or_missing missing message_of is_ready_phase capacity_or_blank
get_status text p namespace = do
  claim ← ask (get_claim namespace (bytes p.pvc_name)) (λ env h. env.claim h)
  pure (status_or_missing text claim)
