-- ===== src/Crates.antt =====
-- The third-party crates that the core calls, as interfaces with the behaviour they document.
pub mod Assoc
pub mod Im
pub mod MapLaws
pub mod SortedMaps
