-- ===== src/Storage/Node.antt =====
-- internal/controller/storage/storage_utils.go: what the recorded storage asks of a pod's node.
use aitrigram.Base.{String, Bool, false, Option, none, some, ◌==◌}
use aitrigram.Api.Repository.{StorageStatus, ModelRepository}

bound_node : Option StorageStatus → String
bound_node none = ""
bound_node (some s) = s.bound_node_name

unfoldable pub get_bound_node_name : ModelRepository → String
unfolding bound_node
get_bound_node_name repo = bound_node repo.status.storage

class_or : String → Option StorageStatus → String
class_or asked none = asked
class_or asked (some s) = s.storage_class

unfoldable pub get_storage_type : ModelRepository → String
unfolding class_or
get_storage_type repo = class_or repo.spec.storage.storage_class repo.status.storage

is_exclusive : Option StorageStatus → Bool
is_exclusive none = false
is_exclusive (some s) = s.access_mode == "ReadWriteOnce"

unfoldable pub requires_node_affinity : ModelRepository → Bool
unfolding is_exclusive
requires_node_affinity repo = is_exclusive repo.status.storage
