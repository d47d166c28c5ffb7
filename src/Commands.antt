-- ===== src/Commands.antt =====
-- The commands that drive an arc (cmd): what each does to the workspace. What a command prints is
-- not modelled, and printing never fails here.
pub mod World
pub mod Approve
pub mod Reject
pub mod Close
pub mod Run
pub mod Lifecycle
pub mod Relayed
pub mod Step
