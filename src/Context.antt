-- ===== src/Context.antt =====
-- internal/contextstore: the units of context that a stage can be given, how far each is trusted,
-- and which of them an arc's labels and paths select.
pub mod Trust
pub mod Freshness
pub mod Route
pub mod Areas
pub mod Improve
