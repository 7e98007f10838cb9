-- ===== src/Plugins.antt =====
-- Plugins: src/evoruntime/plugins.
pub mod Privileged
