-- ===== src/Evaluation.antt =====
-- The Evaluation stage (internal/evaluation): adjudicating findings, and disposing of the arc.
pub mod Decide
pub mod Adjudicate
pub mod Apply
pub mod Effects
pub mod Decided
pub mod Bar
pub mod Repo
