-- ===== src/Wire.antt =====
-- The byte layer of crates/contracts/src/lib.rs: big-endian numbers and the `Reader`.
pub mod Bytes
pub mod Encode
pub mod Reader
