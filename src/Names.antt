-- ===== src/Names.antt =====
-- Names of the objects that the operator creates: internal/controller/storage/llmengine_storage.go
-- (`TruncatedName`), internal/controller/modelrepository_controller.go (`generateJobName`,
-- `hashString`), internal/controller/adapters/llmengine_utils.go (`ComponentName`).
pub mod Hash
pub mod Truncated
pub mod Jobs
pub mod Collisions
mod Tests
