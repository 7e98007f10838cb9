-- ===== src/Release.antt =====
-- The release plane: src/evoruntime/release.
pub mod Manifest
pub mod Eligibility
pub mod Controller
pub mod Fleet
pub mod Invalidation
pub mod Canary
mod Examples
