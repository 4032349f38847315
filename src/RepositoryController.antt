-- ===== src/RepositoryController.antt =====
-- internal/controller/modelrepository_controller.go
pub mod Status
pub mod Revisions
pub mod Deletion
pub mod Reconcile
mod Tests
