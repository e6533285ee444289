-- ===== src/Model.antt =====
-- The project model of crates/contracts/src/lib.rs.
mod Tests
pub mod Command
pub mod Project
