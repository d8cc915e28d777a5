-- ===== src/Typeck.antt =====
-- crates/typeck/src: the types of a program (types.rs), the table of the types of its nodes (table.rs) and the
-- scopes of its names (scope.rs).
pub mod Arena
pub mod Table
pub mod Scope
pub mod Solver
mod Tests
