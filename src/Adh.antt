-- ===== src/Adh.antt =====
-- The domain types and pure rules of the harness (internal/adh).
pub mod Error
pub mod Stage
pub mod Finding
pub mod Arc
pub mod CriticInput
pub mod Kpi
pub mod Registry
