-- ===== src/Tenancy.antt =====
-- Tenants and their environments: src/evoruntime/tenancy.
pub mod Policy
