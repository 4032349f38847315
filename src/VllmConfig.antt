-- ===== src/VllmConfig.antt =====
-- The configuration of vLLM, built from an engine's arguments
-- (internal/controller/adapters/llmengine_utils.go: `BuildVLLMConfig`, `ConvertArgsToVLLMConfig` and
-- what these call).
pub mod Values
pub mod Text
pub mod Arguments
pub mod Build
