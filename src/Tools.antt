-- ===== src/Tools.antt =====
-- internal/toolreg and internal/toolrun: the registry of tools, the hazards of their commands, and the
-- log of their runs.
pub mod Registry
pub mod Hazards
pub mod Runs
