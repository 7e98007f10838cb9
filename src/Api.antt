-- ===== src/Api.antt =====
-- The control plane's services: src/evoruntime/api.
pub mod Approvals
