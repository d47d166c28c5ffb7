-- ===== src/Critic.antt =====
-- The cold critic (internal/critic): what a reply raises, and what adjudication makes of it.
pub mod Disposition
pub mod Reply
pub mod Coverage
pub mod Precision
pub mod Grounding
