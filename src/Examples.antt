-- ===== src/Examples.antt =====
-- Small arcs and workspaces, and what the theorems say of them.
pub mod Data
mod Domain
mod Reviews
mod Workspaces
mod Gates
mod Contexts
mod Boards
mod Relays
mod Cycles
mod Timers
mod Toolings
mod Repos
mod Trees
mod Stamps
