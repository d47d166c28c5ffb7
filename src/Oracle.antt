-- ===== src/Oracle.antt =====
-- internal/oracle/oracle.go: the two independent resolvers of a match game that grade each other.
-- A board is read as rectangular; a cell outside of it, where Go panics, reads as empty. The map of
-- the cells cleared is the list of its keys, each once. Generating boards draws on a random source,
-- so the boards are an argument here.
pub mod Board
pub mod Native
pub mod Result
pub mod Lines
pub mod Orders
pub mod Agreement
