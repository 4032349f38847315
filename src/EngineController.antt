-- ===== src/EngineController.antt =====
-- internal/controller/llmengine_controller.go
pub mod Status
pub mod Gpu
pub mod References
pub mod Deletion
pub mod Loops
pub mod Reconcile
mod Tests
