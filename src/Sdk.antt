-- ===== src/Sdk.antt =====
-- The SDK of an instrumented agent: src/evoruntime/sdk.
pub mod Buffer
