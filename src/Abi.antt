-- ===== src/Abi.antt =====
-- native/c-abi/rust/src/lib.rs: the versioned C interface of the core.
mod Tests
pub mod Types
pub mod Table
pub mod Process
pub mod Convert
pub mod Handles
pub mod Batch
pub mod Core
pub mod Lease
pub mod Calls
pub mod Safe
pub mod Unchanged
pub mod Reentrant
