-- ===== src/Campaign.antt =====
-- The campaign plane: src/evoruntime/campaign.
pub mod Phase
pub mod Machine
pub mod Compensation
pub mod Promotion
mod Examples
