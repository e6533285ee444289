-- ===== src/Time.antt =====
-- Exact time of crates/contracts/src/lib.rs: rationals, ranges and the tick adapter.
mod Tests
pub mod Gcd
pub mod Rational
pub mod Range
pub mod Adapter
