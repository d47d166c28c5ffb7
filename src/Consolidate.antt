-- ===== src/Consolidate.antt =====
-- internal/consolidate: the pure core of the self-optimization cycle.
pub mod Region
pub mod Signals
pub mod Modes
pub mod Scores
pub mod Plan
pub mod Prompt
