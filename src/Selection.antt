-- ===== src/Selection.antt =====
-- The selection plane: src/evoruntime/selection.
pub mod Authority
pub mod Graduation
pub mod ReleasePointer
